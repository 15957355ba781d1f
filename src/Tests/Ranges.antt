-- ===== src/Tests/Ranges.antt =====
-- The parser of Range headers on small inputs.
use network_server.Base.{
  ℕ, ◌+◌, ◌<◌, ◌≤◌, ◌≡◌, ◌⊎◌, refl, Bool, true, false, some, List, [], ◌∷◌, arith, codes, atoi,
  skip_spaces, signed_atoi, positive_atoi, leading_digits, bytes_eq,
}
use network_server.Ranges.{
  Range, push, range_end, range_from, range_suffix, range_round, range_loop, get_ranges,
}
use network_server.CString.{skip_delims, span_token, strtok}
use network_server.Ranges.RoundTrip.{range_header, get_ranges-range_header}
use network_server.Ranges.Total.{get_ranges-total}
use network_server.Ranges.Bounds.{range_suffix-cases}

abbrev range : ℕ → ℕ → Range
range s e = record { start = s; end = e }

-- Three ranges of a file of 100 bytes; of the last, only the start is known.
three_ranges :
    get_ranges (codes "bytes=0-9, 20-29,-5") 100 true
    ≡ some (range 0 9 ∷ range 20 29 ∷ range 94 99 ∷ [], some true)
unfolding get_ranges range_loop range_round range_from range_end range_suffix strtok skip_delims
    span_token atoi skip_spaces signed_atoi positive_atoi leading_digits bytes_eq
three_ranges = refl

-- The last byte alone is refused, and an end behind the file is taken as it is.
last_byte : get_ranges (codes "bytes=99-") 100 true ≡ some ([], some false)
unfolding get_ranges range_loop range_round range_from range_end range_suffix strtok skip_delims
    span_token atoi skip_spaces signed_atoi positive_atoi leading_digits bytes_eq
last_byte = refl

beyond : get_ranges (codes "bytes=0-999") 100 true ≡ some (range 0 999 ∷ [], some true)
unfolding get_ranges range_loop range_round range_from range_end range_suffix strtok skip_delims
    span_token atoi skip_spaces signed_atoi positive_atoi leading_digits bytes_eq
beyond = refl

get_ranges-range_header_example :
    get_ranges (range_header 3 7) 10 true ≡ some (range 3 7 ∷ [], some true)
get_ranges-range_header_example =
    get_ranges-range_header 10 3 7 (omega arith) (omega arith) (omega arith) (omega arith)

get_ranges-total_example :
    (ranges : List Range) × (valid : Bool) × (get_ranges (codes "bytes=,a-b,--") 10 true
      ≡ some (ranges, some valid))
get_ranges-total_example = get_ranges-total (codes "bytes=,a-b,--") 10 (omega arith)

last_four : range_suffix 10 (codes "4") ≡ push (range 5 9)
unfolding range_suffix atoi skip_spaces signed_atoi positive_atoi leading_digits
last_four = refl

four : atoi (codes "4") ≡ 4
unfolding atoi skip_spaces signed_atoi positive_atoi leading_digits
four = refl

range_suffix-cases_example :
    (9 + 1 ≡ 10)
    × (((atoi (codes "4") < 10) × (5 + atoi (codes "4") ≡ 9)) ⊎ ((10 ≤ atoi (codes "4")) × (9 < 5)))
range_suffix-cases_example =
    range_suffix-cases 10 52 [] (range 5 9) (omega arith) (omega arith) (omega (arith, four))
      (omega (arith, four)) last_four
