-- ===== src/Ranges.antt =====
-- `http_request::get_ranges` of src/http_request.cpp: the ranges of a Range header.
pub mod Total
pub mod Bounds
pub mod RoundTrip
use network_server.Base.{
  ℕ, zero, suc, ◌+◌, ◌-◌, Bool, true, false, not, ◌&&◌, ◌||◌, Option, none, some, List, [], ◌∷◌,
  ◌++◌, ltb, leb, ◌==◌, if◌then◌else◌, sub_size, Bytes, codes, bytes_eq, length, drop, atoi,
}
use network_server.CString.{strtok}

pub record Range : Type 0 where
  pub start : ℕ
  pub end : ℕ

-- One round of the loop: the range goes on the list, the loop ends, or it ends with the range
-- marked as one that cannot be satisfied.
pub data Round : Type 0 where
  push : Range → Round
  stop unsatisfiable : Round

abbrev pub first_byte : Bytes → ℕ
first_byte [] = 0
first_byte (b ∷ s) = b

unfoldable pub range_end : ℕ → ℕ → Option Bytes → Round
range_end max_size start none =
    let end = sub_size max_size 1 in
    push (record {
      start = start;
      end = if ltb (sub_size max_size 1) end then sub_size max_size 1 else end;
    })
range_end max_size start (some text) =
    let end = atoi text in
    if not (first_byte text == 48) && end == 0
    then stop
    else push (record { start = start; end = end })

-- The token of a range that begins with a digit: `start-end` or `start-`.
unfoldable pub range_from : ℕ → Bytes → Option Bytes → Round
unfolding range_end
range_from max_size start_text end_text =
    let start = atoi start_text in
    if leb (sub_size max_size 1) start
    then unsatisfiable
    else if not (first_byte start_text == 48) && start == 0
    then stop
    else range_end max_size start end_text

-- The token of a range that begins with a dash: the last bytes.
unfoldable pub range_suffix : ℕ → Bytes → Round
range_suffix max_size [] = push (record { start = 0; end = 0 })
range_suffix max_size (b ∷ s) =
    let end_offset = atoi (b ∷ s) in
    if end_offset == 0
    then stop
    else push
        (record { start = sub_size (sub_size max_size 1) end_offset; end = sub_size max_size 1 })

abbrev pub second_token : Bytes → Option Bytes
second_token rest = elim (strtok (codes "-") rest) [ none ↦ none | some (t, _) ↦ some t ]

-- A token is not empty, so its first `strtok_r` succeeds unless it holds dashes alone, and then it
-- begins with one.
unfoldable pub range_round : ℕ → Bytes → Round
unfolding range_from range_suffix
range_round max_size token =
    if first_byte token == 45
    then range_suffix max_size (drop 1 token)
    else elim (strtok (codes "-") token) [
      | none ↦ stop
      | some (start_text, rest) ↦ range_from max_size start_text (second_token rest)
    ]

unfoldable pub range_loop : ℕ → ℕ → Bytes → List Range → Option (List Range × Bool)
range_loop zero max_size text ranges = none
range_loop (suc fuel) max_size text ranges = elim (strtok (codes ", ") text) [
  | none ↦ some (ranges, true)
  | some (token, rest) ↦ elim (range_round max_size token) [
    | push r ↦ range_loop fuel max_size rest (ranges ++ r ∷ [])
    | stop ↦ some (ranges, true)
    | unsatisfiable ↦ some (ranges, false)
  ]
]

-- `none` is undefined behaviour or an exception: a header shorter than `bytes=` makes the length
-- of the copy zero or negative. The result is the ranges and `*valid_range`, which is written only
-- if the pointer to it is not null.
unfoldable pub get_ranges : Bytes → ℕ → Bool → Option (List Range × Option Bool)
unfolding range_loop
get_ranges range_str max_size has_indicator =
    if not has_indicator
    then some ([], none)
    else if length range_str == 0
    then some ([], some true)
    else if bytes_eq range_str (codes "none")
    then some ([], some true)
    else if ltb (length range_str) 6
    then none
    else elim (range_loop (length range_str + 1) max_size (drop 6 range_str) []) [
      | none ↦ none
      | some (ranges, valid) ↦ some (ranges, some valid)
    ]
