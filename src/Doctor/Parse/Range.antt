-- ===== src/Doctor/Parse/Range.antt =====
-- parsePingGroupRange of internal/doctor/doctor.go reads back what the kernel prints.
use netsonar.Base.{ℕ, ◌^◌, ◌<◌, ◌≡◌, refl, ◌&&◌, String, ◌<>◌, NonEmpty, List, [], ◌∷◌, any, arith}
use netsonar.Base.Int.{ℤ, pos, leb_ℤ}
use netsonar.Base.Spaces.{NoSpace, IsBlankSpace, fields_of_two}
use netsonar.Probe.Sockets.{got}
use netsonar.Doctor.Parse.{
  Strconv, parse_end, parse_fields, parse_ping_group_range, any_gid_in_range,
}

-- A range of two group ids of 32 bits is read back as it is printed, if atoi reads back a printed group id,
-- with a gap of spaces and with or without a space or a line's end behind.
pub parse_ping_group_range-printed :
    (conv : Strconv) (print : ℤ → String) (start end : ℕ) (gap tail : String)
    → ((n : ℕ)
        → n < 2 ^ 32
        → NonEmpty (print (pos n))
          × NoSpace (print (pos n))
          × (conv.atoi (print (pos n)) ≡ got (pos n)))
    → start < 2 ^ 32
    → end < 2 ^ 32
    → NonEmpty gap
    → IsBlankSpace gap
    → IsBlankSpace tail
    → parse_ping_group_range conv (print (pos start) <> (gap <> (print (pos end) <> tail)))
      ≡ got (pos start, pos end)
unfolding parse_ping_group_range parse_fields
parse_ping_group_range-printed conv print start end gap tail h ls le ng sg st =
    let (na, sa, ra) = h start ls in
    let (nb, sb, rb) = h end le in
    rw (fields_of_two (print (pos start)) gap (print (pos end)) tail na sa ng sg nb sb st)
      (rw (ra, parse_fields) (rw (rb, parse_end) refl))

-- A group lies in the range exactly if one of the list does.
pub any_gid_in_range_iff :
    (gids : List ℤ) (start end : ℤ)
    → any_gid_in_range gids start end ≡ any (λ g. leb_ℤ start g && leb_ℤ g end) gids
unfolding any_gid_in_range
any_gid_in_range_iff [] start end = refl
any_gid_in_range_iff (g ∷ gids) start end = ground (arith, any_gid_in_range_iff gids start end)
