-- ===== src/Protocol/Subjects/Layout.antt =====
-- parse_subject on the subjects that the builders give.
use parler_protocol.Prelude.{
  ℕ, Text, codes, ◌==◌, trim, ◌≡◌, refl, ap, ◌∙◌, sym, subst, Bool, false, Bool-cases, inl, inr,
  some, List, [], ◌∷◌, append_assoc, map, arith, eqb, any, Outcome, ok, err,
}
use parler_protocol.Protocol.Subjects.{
  SubjectError, dot, star, root, is_safe, safe, token, dotted, space_prefix, route_token, extend,
  split, join, channel_path, chat_subject, unicast_subject, anycast_subject,
  control_service_subject, chat_kind, inst, svc, ctl, parse_kind, parse_parts, parse_subject,
}

abbrev pub has_dot : Text → Bool
has_dot = any (λ c. eqb c dot)

split-dotted : (a b : Text) → has_dot a ≡ false → split (dotted a b) ≡ a ∷ split b
unfolding split any
split-dotted [] b h = refl
split-dotted (c ∷ a) b h =
    let plain : eqb c dot ≡ false = ground (arith, h) in
    rw (plain, split-dotted a b (ground (arith, h))) refl

split_plain : (a : Text) → has_dot a ≡ false → split a ≡ a ∷ []
unfolding split any
split_plain [] h = refl
split_plain (c ∷ a) h =
    let plain : eqb c dot ≡ false = ground (arith, h) in
    rw (plain, split_plain a (ground (arith, h))) refl

safe_plain : (c : ℕ) → eqb (safe c) dot ≡ false
unfolding safe is_safe
safe_plain c = ground arith

map-safe_plain : (s : Text) → has_dot (map safe s) ≡ false
unfolding any
map-safe_plain [] = refl
map-safe_plain (c ∷ s) = ground (arith, safe_plain c, map-safe_plain s)

or_underscore :
    (t : Text) → has_dot t ≡ false → has_dot (elim t [ [] ↦ codes "_" | (c ∷ cs) ↦ c ∷ cs ]) ≡ false
unfolding any
or_underscore [] h = refl
or_underscore (c ∷ cs) h = h

has_dot-token : (s : Text) → has_dot (token s) ≡ false
unfolding token
has_dot-token s = or_underscore (map safe (trim s)) (map-safe_plain (trim s))

has_dot-route_token : (s : Text) → has_dot (route_token s) ≡ false
unfolding route_token any
has_dot-route_token s = elim (Bool-cases (s == star)) [
  | inl h ↦ rw (h) refl
  | inr h ↦ rw (h) (has_dot-token s)
]

-- The segments before the kind.
split-space :
    (space rest : Text) → split (dotted (space_prefix space) rest) ≡ root ∷ token space ∷ split rest
split-space space rest =
    ap split (append_assoc root (dot ∷ token space) (dot ∷ rest))
    ∙ split-dotted root (dotted (token space) rest) (unfold any in refl)
    ∙ ap (λ xs. root ∷ xs) (split-dotted (token space) rest (has_dot-token space))

join-extend : (c : ℕ) (xs : List Text) → join (extend c xs) ≡ c ∷ join xs
unfolding join
join-extend c [] = refl
join-extend c (x ∷ []) = refl
join-extend c (x ∷ y ∷ ys) = refl

-- The segments of a text: there is one.
split_some : (s : Text) → (x : Text) × (xs : List Text) × (split s ≡ x ∷ xs)
unfolding split
split_some [] = ([], [], refl)
split_some (c ∷ s) = elim (Bool-cases (eqb c dot)) [
  | inl h ↦ ([], split s, rw (h) refl)
  | inr h ↦ let (x, xs, e) = split_some s in (c ∷ x, xs, rw (h, e) refl)
]

join-split : (s : Text) → join (split s) ≡ s
unfolding split join
join-split [] = refl
join-split (c ∷ s) = elim (Bool-cases (eqb c dot)) [
  | inl h ↦
      let (x, xs, e) = split_some s in
      let rest : join (x ∷ xs) ≡ s = ap join (sym e) ∙ join-split s in
      let is_dot : dot ≡ c = ground (arith, h) in
      rw (h, e) (ap (λ t. dot ∷ t) rest ∙ ap (λ d. d ∷ s) is_dot)
  | inr h ↦ rw (h) (join-extend c (split s) ∙ ap (λ t. c ∷ t) (join-split s))
]

-- A subject addressed to one instance, to a service or to a control service is read back with its
-- kind, its sanitised sender and its sanitised target, whatever the names contain.
pub parse_subject-routed :
    (space target sender : Text)
    → (parse_subject (unicast_subject space target sender)
        ≡ some (record { kind = inst; sender = route_token sender; rest = route_token target }))
      × (parse_subject (anycast_subject space target sender)
          ≡ some (record { kind = svc; sender = route_token sender; rest = route_token target }))
      × (parse_subject (control_service_subject space target sender)
          ≡ some (record { kind = ctl; sender = route_token sender; rest = route_token target }))
unfolding parse_subject parse_parts parse_kind unicast_subject anycast_subject
    control_service_subject ◌==◌
parse_subject-routed space target sender =
    let parts : split (dotted (route_token target) (route_token sender))
        ≡ route_token target ∷ route_token sender ∷ [] =
      split-dotted (route_token target) (route_token sender) (has_dot-route_token target)
      ∙ ap (λ xs. route_token target ∷ xs)
          (split_plain (route_token sender) (has_dot-route_token sender)) in
    let under : (k : Text)
        → has_dot k ≡ false
        → split (
            dotted (space_prefix space)
              (dotted k (dotted (route_token target) (route_token sender))))
          ≡ root ∷ token space ∷ k ∷ route_token target ∷ route_token sender ∷ [] =
      (λ k h.
        split-space space (dotted k (dotted (route_token target) (route_token sender)))
        ∙ ap (λ xs. root ∷ token space ∷ xs)
            (split-dotted k (dotted (route_token target) (route_token sender)) h
              ∙ ap (λ xs. k ∷ xs) parts)) in
    (
      ap parse_parts (under (codes "inst") (unfold any in refl)),
      ap parse_parts (under (codes "svc") (unfold any in refl)),
      ap parse_parts (under (codes "ctl") (unfold any in refl)),
    )

text_of : Outcome SubjectError Text → Text
text_of (ok t) = t
text_of (err e) = []

-- A chat subject is read back with its sanitised sender and the whole path of its channel.
pub parse_subject-chat :
    (space sender channel path s : Text)
    → channel_path channel ≡ ok path
    → chat_subject space sender channel ≡ ok s
    → parse_subject s ≡ some (record { kind = chat_kind; sender = route_token sender; rest = path })
unfolding parse_subject parse_parts parse_kind chat_subject text_of ◌==◌
parse_subject-chat space sender channel path s h built =
    let whole =
      dotted (space_prefix space) (dotted (codes "chat") (dotted (route_token sender) path)) in
    let parts : split whole ≡ root ∷ token space ∷ codes "chat" ∷ route_token sender ∷ split path =
      split-space space (dotted (codes "chat") (dotted (route_token sender) path))
      ∙ ap (λ xs. root ∷ token space ∷ xs)
          (split-dotted (codes "chat") (dotted (route_token sender) path) (unfold any in refl)
            ∙ ap (λ xs. codes "chat" ∷ xs)
                (split-dotted (route_token sender) path (has_dot-route_token sender))) in
    let (x, xs, e) = split_some path in
    let read : parse_subject whole
        ≡ some (record { kind = chat_kind; sender = route_token sender; rest = path }) =
      ap parse_parts
        (parts ∙ ap (λ ys. root ∷ token space ∷ codes "chat" ∷ route_token sender ∷ ys) e)
      ∙ ap (λ t. some (record { kind = chat_kind; sender = route_token sender; rest = t }))
          (ap join (sym e) ∙ join-split path) in
    let named : chat_subject space sender channel ≡ ok whole = (rw (h, chat_subject) refl) in
    let same : whole ≡ s = ap text_of (sym named ∙ built) in
    subst
      (λ t.
        parse_subject t
        ≡ some (record { kind = chat_kind; sender = route_token sender; rest = path }))
      same read
