-- ===== src/Protocol/Subjects.antt =====
-- crates/parler-protocol/src/subjects.rs: the names of subjects, their parsing and their matching.
pub mod Layout
pub mod Matching
use parler_protocol.Prelude.{
  ℕ, Text, codes, ◌==◌, trim, Bool, true, false, not, ◌&&◌, ◌||◌, Option, none, some, List, [], ◌∷◌,
  ◌++◌, map, ltb, leb, eqb, if◌then◌else◌, select, any, Outcome, ok, err, cons_ok,
}

pub data SubjectError : Type 0 where
  wildcard_not_last : Text → SubjectError

abbrev pub dot : ℕ
dot = 46

abbrev pub star : Text
star = codes "*"

abbrev pub gt : Text
gt = codes ">"

abbrev pub root : Text
root = codes "parler"

-- `[A-Za-z0-9_-]`.
unfoldable pub is_safe : ℕ → Bool
is_safe c =
    (leb 65 c && leb c 90)
    || ((leb 97 c && leb c 122) || ((leb 48 c && leb c 57) || (eqb c 95 || eqb c 45)))

unfoldable pub safe : ℕ → ℕ
safe c = if is_safe c then c else 95

unfoldable pub token : Text → Text
token s = elim (map safe (trim s)) [ [] ↦ codes "_" | (c ∷ cs) ↦ c ∷ cs ]

-- `format!("{a}.{b}")`.
abbrev pub dotted : Text → Text → Text
dotted a b = a ++ dot ∷ b

abbrev pub space_prefix : Text → Text
space_prefix space = dotted root (token space)

unfoldable pub route_token : Text → Text
route_token s = if s == star then star else token s

-- `split('.')`, which gives at least one segment.
abbrev pub extend : ℕ → List Text → List Text
extend c [] = (c ∷ []) ∷ []
extend c (x ∷ xs) = (c ∷ x) ∷ xs

unfoldable pub split : Text → List Text
split [] = [] ∷ []
split (c ∷ s) = let rest = split s in if eqb c dot then [] ∷ rest else extend c rest

-- `join(".")`.
unfoldable pub join : List Text → Text
join [] = []
join (x ∷ []) = x
join (x ∷ y ∷ ys) = dotted x (join (y ∷ ys))

-- The segments of a channel, sanitised; `>` stands last or not at all.
unfoldable pub path_segments : Text → List Text → Outcome SubjectError (List Text)
path_segments channel [] = ok []
path_segments channel (s ∷ ss) =
    let rest = path_segments channel ss in
    if s == gt
    then elim ss [ [] ↦ ok (gt ∷ []) | t ∷ ts ↦ err (wildcard_not_last channel) ]
    else if s == star
    then cons_ok (ok star) rest
    else cons_ok (ok (token s)) rest

abbrev pub is_empty : Text → Bool
is_empty [] = true
is_empty (c ∷ s) = false

unfoldable pub channel_path : Text → Outcome SubjectError Text
channel_path channel = elim (select (λ s. not (is_empty s)) (map trim (split channel))) [
  | [] ↦ ok (codes "_")
  | (s ∷ ss) ↦ elim (path_segments channel (s ∷ ss)) [ err e ↦ err e | ok xs ↦ ok (join xs) ]
]

unfoldable pub chat_subject : Text → Text → Text → Outcome SubjectError Text
chat_subject space sender channel = elim (channel_path channel) [
  | err e ↦ err e
  | ok path ↦
      ok (dotted (space_prefix space) (dotted (codes "chat") (dotted (route_token sender) path)))
]

unfoldable pub is_concrete_channel : Text → Bool
is_concrete_channel channel = not (any (λ s. (trim s == star) || (trim s == gt)) (split channel))

unfoldable pub segments_match : List Text → List Text → Bool
segments_match [] [] = true
segments_match [] (s ∷ ss) = false
segments_match (p ∷ ps) [] = false
segments_match (p ∷ ps) (s ∷ ss) =
    let rest = segments_match ps ss in
    if p == gt then true else if p == star then rest else p == s && rest

unfoldable pub subject_matches : Text → Text → Bool
subject_matches pattern subject = segments_match (split pattern) (split subject)

unfoldable pub channel_in_allow : List Text → Text → Bool
channel_in_allow allow channel = any (λ a. subject_matches a channel) allow

-- The first of equal subjects; `seen` are those before.
unfoldable pub unique : List Text → List Text → List Text
unique seen [] = []
unique seen (x ∷ xs) =
    let rest = unique (x ∷ seen) xs in if any (λ y. y == x) seen then unique seen xs else x ∷ rest

abbrev pub is_covered : List Text → Text → Bool
is_covered uniq x = any (λ y. not (y == x) && subject_matches y x) uniq

unfoldable pub collapse_filter_subjects : List Text → List Text
collapse_filter_subjects subjects =
    let uniq = unique [] subjects in select (λ x. not (is_covered uniq x)) uniq

unfoldable pub unicast_subject : Text → Text → Text → Text
unicast_subject space target sender =
    dotted (space_prefix space)
      (dotted (codes "inst") (dotted (route_token target) (route_token sender)))

unfoldable pub anycast_subject : Text → Text → Text → Text
anycast_subject space service sender =
    dotted (space_prefix space)
      (dotted (codes "svc") (dotted (route_token service) (route_token sender)))

unfoldable pub control_service_subject : Text → Text → Text → Text
control_service_subject space service sender =
    dotted (space_prefix space)
      (dotted (codes "ctl") (dotted (route_token service) (route_token sender)))

pub data DeliveryMode : Type 0 where
  chat anycast unicast : DeliveryMode

pub data SubjectKind : Type 0 where
  chat_kind inst svc ctl : SubjectKind

pub record ParsedSubject : Type 0 where
  pub kind : SubjectKind
  pub sender : Text
  pub rest : Text

abbrev pub routed : SubjectKind → List Text → Option ParsedSubject
routed k (target ∷ sender ∷ []) = some (record { kind = k; sender = sender; rest = target })
routed k _ = none

abbrev pub multicast : List Text → Option ParsedSubject
multicast (sender ∷ x ∷ xs) =
    some (record { kind = chat_kind; sender = sender; rest = join (x ∷ xs) })
multicast _ = none

-- By the segment at index 2.
unfoldable pub parse_kind : Text → List Text → Option ParsedSubject
parse_kind k rest =
    if k == codes "chat"
    then multicast rest
    else if k == codes "inst"
    then routed inst rest
    else if k == codes "svc"
    then routed svc rest
    else if k == codes "ctl"
    then routed ctl rest
    else none

unfoldable pub parse_parts : List Text → Option ParsedSubject
parse_parts (r ∷ space ∷ k ∷ rest) = if r == root then parse_kind k rest else none
parse_parts _ = none

unfoldable pub parse_subject : Text → Option ParsedSubject
parse_subject subject = parse_parts (split subject)

abbrev pub mode_of : SubjectKind → Option DeliveryMode
mode_of chat_kind = some chat
mode_of svc = some anycast
mode_of inst = some unicast
mode_of ctl = none

unfoldable pub delivery_of : Text → Option DeliveryMode
delivery_of subject = elim (parse_subject subject) [ none ↦ none | some p ↦ mode_of p.kind ]
