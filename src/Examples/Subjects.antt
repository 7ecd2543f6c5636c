-- ===== src/Examples/Subjects.antt =====
-- Subjects: names that need sanitising, and filters that overlap.
use parler_protocol.Prelude.{
  Text, codes, ◌==◌, trim, ◌≡◌, refl, some, not, ◌&&◌, List, [], ◌∷◌, any, select, ok,
}
use parler_protocol.Protocol.Subjects.{
  is_safe, safe, token, route_token, split, join, path_segments, channel_path, chat_subject,
  unicast_subject, anycast_subject, control_service_subject, chat_kind, inst, svc, ctl,
  parse_subject, segments_match, subject_matches, unique, collapse_filter_subjects,
}
use parler_protocol.Protocol.Subjects.Layout.{parse_subject-routed, parse_subject-chat}
use parler_protocol.Protocol.Subjects.Matching.{any-collapse_filter_subjects}

abbrev demo : Text
demo = codes "demo"

abbrev dotty : Text
dotty = codes "a.b"

parse_subject-routed_example :
    (parse_subject (unicast_subject demo dotty dotty)
      ≡ some (record { kind = inst; sender = route_token dotty; rest = route_token dotty }))
    × (parse_subject (anycast_subject demo dotty dotty)
        ≡ some (record { kind = svc; sender = route_token dotty; rest = route_token dotty }))
    × (parse_subject (control_service_subject demo dotty dotty)
        ≡ some (record { kind = ctl; sender = route_token dotty; rest = route_token dotty }))
parse_subject-routed_example = parse_subject-routed demo dotty dotty

dotty_path : channel_path dotty ≡ ok dotty
unfolding channel_path split select trim path_segments token safe is_safe ◌==◌ join
dotty_path = refl

parse_subject-chat_example :
    parse_subject (codes "parler.demo.chat.a_b.a.b")
    ≡ some (record { kind = chat_kind; sender = route_token dotty; rest = dotty })
parse_subject-chat_example =
    parse_subject-chat demo dotty dotty dotty (codes "parler.demo.chat.a_b.a.b") dotty_path (
      unfold chat_subject channel_path split select trim path_segments token safe is_safe ◌==◌ join
        route_token in
      refl)

abbrev overlapping : List Text
overlapping = codes "a.*" ∷ codes "a.>" ∷ []

-- Each of the two matches the other, so no filter is left.
none_left : collapse_filter_subjects overlapping ≡ []
unfolding collapse_filter_subjects unique any select subject_matches segments_match split ◌==◌
none_left = refl

any-collapse_filter_subjects_example :
    any (λ y. y == codes "a.*") (collapse_filter_subjects overlapping)
    ≡ any (λ y. y == codes "a.*") overlapping
      && not (any (λ y. not (y == codes "a.*") && subject_matches y (codes "a.*")) overlapping)
any-collapse_filter_subjects_example = any-collapse_filter_subjects overlapping (codes "a.*")
