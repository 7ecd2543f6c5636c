-- ===== src/Protocol/Parts.antt =====
-- crates/parler-protocol/src: message parts (types.rs) and the typed references that ride in them
-- (hub.rs). `Json` has the constructors of a serde_json value; a number keeps its literal.
use parler_protocol.Prelude.{
  Text, codes, ◌==◌, trim, eq_ignore_ascii_case, ◌≡◌, refl, Bool, true, false, ◌||◌, Option, none,
  some, is_some_and, List, [], ◌∷◌, arith, if◌then◌else◌,
}
use mathlib.Core.Option

mutual
  pub data Json : Type 0 where
    null : Json
    bool : Bool → Json
    number : Text → Json
    string : Text → Json
    array : Items → Json
    object : Fields → Json

  pub data Items : Type 0 where
    nil : Items
    cons : Json → Items → Items

  pub data Fields : Type 0 where
    end : Fields
    field : Text → Json → Fields → Fields

pub data Part : Type 0 where
  text : Text → Part
  value : Json → Part
  extension : Text → Fields → Part

-- An author's display identity (`EndpointRef`).
pub record EndpointRef : Type 0 where
  pub id : Text
  pub name : Text
  pub role : Option Text

-- `Map::get`.
unfoldable pub get : Text → Fields → Option Json
get k end = none
get k (field j v fs) = let rest = get k fs in if j == k then some v else rest

-- What the derived deserialiser does with a required string, and with a defaulted `Option<String>`.
abbrev as_string : Option Json → Option Text
as_string (some (string s)) = some s
as_string _ = none

abbrev as_optional_string : Option Json → Option (Option Text)
as_optional_string none = some none
as_optional_string (some null) = some none
as_optional_string (some (string s)) = some (some s)
as_optional_string _ = none

abbrev pub handoff_kind : Text
handoff_kind = codes "com.parler.handoff"

abbrev pub dispatch_kind : Text
dispatch_kind = codes "com.parler.dispatch"

abbrev pub message_sig_kind : Text
message_sig_kind = codes "com.parler.sig"

pub record DispatchRef : Type 0 where
  pub role : Text

unfoldable pub dispatch_of_part : Part → Option DispatchRef
unfolding get
dispatch_of_part (extension kind fields) =
    if kind == dispatch_kind
    then Option.map (λ r. record { role = r }) (as_string (get (codes "role") fields))
    else none
dispatch_of_part _ = none

unfoldable pub dispatch_to_part : DispatchRef → Part
dispatch_to_part d = extension dispatch_kind (field (codes "role") (string d.role) end)

pub record HandoffRef : Type 0 where
  pub next : Text
  pub summary : Option Text
  pub to : Option Text
  pub bundle : Option Text

infixl 5 ◌>>=◌
abbrev ◌>>=◌ {ℓ κ} : {A : Type ℓ} {B : Type κ} → Option A → (A → Option B) → Option B
none >>= f = none
some a >>= f = f a

handoff_of_fields : Fields → Option HandoffRef
unfolding get
handoff_of_fields fs = do
  n ← as_string (get (codes "next") fs)
  s ← as_optional_string (get (codes "summary") fs)
  t ← as_optional_string (get (codes "to") fs)
  b ← as_optional_string (get (codes "bundle") fs)
  some (record { next = n; summary = s; to = t; bundle = b })

unfoldable pub handoff_of_part : Part → Option HandoffRef
unfolding handoff_of_fields
handoff_of_part (extension kind fields) =
    if kind == handoff_kind then handoff_of_fields fields else none
handoff_of_part _ = none

-- `skip_serializing_if = "Option::is_none"`.
abbrev optional_field : Text → Option Text → Fields → Fields
optional_field k none fs = fs
optional_field k (some v) fs = field k (string v) fs

unfoldable pub handoff_to_part : HandoffRef → Part
handoff_to_part h = extension handoff_kind (
    field (codes "next") (string h.next) (
      optional_field (codes "summary") h.summary
        (optional_field (codes "to") h.to (optional_field (codes "bundle") h.bundle end))))

unfoldable pub is_for : HandoffRef → Text → Option Text → Bool
is_for h name role = elim h.to [
  | none ↦ true
  | some addr ↦
      eq_ignore_ascii_case (trim addr) name
      || is_some_and role (λ r. eq_ignore_ascii_case (trim addr) r)
]

-- `parts.iter().filter_map(DispatchRef::from_part)`, and the same for handoffs.
unfoldable pub dispatches : List Part → List DispatchRef
dispatches [] = []
dispatches (p ∷ ps) =
    let rest = dispatches ps in elim (dispatch_of_part p) [ none ↦ rest | some d ↦ d ∷ rest ]

unfoldable pub handoffs : List Part → List HandoffRef
handoffs [] = []
handoffs (p ∷ ps) =
    let rest = handoffs ps in elim (handoff_of_part p) [ none ↦ rest | some h ↦ h ∷ rest ]

unfoldable pub is_message_sig_part : Part → Bool
is_message_sig_part (extension kind fields) = kind == message_sig_kind
is_message_sig_part _ = false

pub dispatch_of_part-to_part : (d : DispatchRef) → dispatch_of_part (dispatch_to_part d) ≡ some d
unfolding dispatch_of_part dispatch_to_part ◌==◌
dispatch_of_part-to_part d = refl

pub handoff_of_part-to_part : (h : HandoffRef) → handoff_of_part (handoff_to_part h) ≡ some h
unfolding handoff_of_part handoff_to_part ◌==◌
handoff_of_part-to_part h = ground arith
