-- ===== src/Ranges/Total.antt =====
-- `get_ranges` ends: every round takes a token off the header.
use network_server.Base.{
  inl, inr, ℕ, suc, zero, ◌+◌, ◌<◌, ◌≤◌, ◌≡◌, refl, Bool, true, false, Option, some, List, [], ◌∷◌,
  ◌++◌, arith, length, Bytes, codes, Bool-cases, Option-cases, bytes_eq, drop,
}
use network_server.Ranges.{
  Range, Round, push, stop, unsatisfiable, range_round, range_loop, get_ranges,
}
use network_server.CString.{strtok}
use network_server.CString.Tokens.{strtok-shorter}

abbrev Ends : Option (List Range × Bool) → Type 0
Ends o = (result : List Range) × (valid : Bool) × (o ≡ some (result, valid))

round-Ends :
    (r : Round) (ranges : List Range) (next : Range → Option (List Range × Bool))
    → ((x : Range) → Ends (next x))
    → Ends (elim r [
      | push x ↦ next x
      | stop ↦ some (ranges, true)
      | unsatisfiable ↦ some (ranges, false)
    ])
round-Ends (push x) ranges next ends = ends x
round-Ends stop ranges next ends = (ranges, true, refl)
round-Ends unsatisfiable ranges next ends = (ranges, false, refl)

range_loop-Ends :
    (fuel n : ℕ) (text : Bytes) (ranges : List Range)
    → length text < fuel
    → Ends (range_loop fuel n text ranges)
unfolding range_loop
range_loop-Ends zero n text ranges enough = absurd (omega arith)
range_loop-Ends (suc fuel) n text ranges enough = elim (Option-cases (strtok (codes ", ") text)) [
  | inl over ↦ rw (over, range_loop) (ranges, true, refl)
  | inr ((token, rest), e) ↦
      rw (e, range_loop)
        (round-Ends (range_round n token) ranges _ λ x.
          range_loop-Ends fuel n rest (ranges ++ x ∷ [])
            (omega (arith, strtok-shorter (codes ", ") text token rest e)))
]

drop_shorter : (n : ℕ) (s : Bytes) → length (drop n s) ≤ length s
drop_shorter zero s = omega arith
drop_shorter (suc n) [] = omega arith
drop_shorter (suc n) (b ∷ s) = omega (arith, drop_shorter n s)

-- A Range header of six bytes or more is parsed to the end, whatever it holds.
pub get_ranges-total :
    (range_str : Bytes) (n : ℕ)
    → 6 ≤ length range_str
    → (ranges : List Range) × (valid : Bool) × (get_ranges range_str n true
        ≡ some (ranges, some valid))
unfolding get_ranges
get_ranges-total range_str n long =
    let (ranges, valid, e) =
      range_loop-Ends (length range_str + 1) n (drop 6 range_str) []
        (omega (arith, drop_shorter 6 range_str)) in
    elim (Bool-cases (bytes_eq range_str (codes "none"))) [
      | inl no_ranges ↦ ([], true, ground (arith, no_ranges, long))
      | inr ranged ↦ (ranges, valid, ground (arith, ranged, long, e))
    ]
