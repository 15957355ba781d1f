-- ===== src/Tests/Items.antt =====
-- The items of POST bodies.
use network_server.Base.{
  ℕ, ◌≡◌, refl, Option, none, some, List, [], ◌∷◌, ◌++◌, Bytes, codes, Run, ok, fault, drop, atoi,
  skip_spaces, signed_atoi, positive_atoi, leading_digits, starts_with,
}
use network_server.CString.{strchr, strstr, c_string}
use network_server.Request.{points_to, HttpRequest, empty_request}
use network_server.Request.Items.{
  buffer_bytes, write_null, memmem, strchr_from, cut_value, find_value, next_or_last, add_item,
  next_section, read_item, item_loop, extract_post_data_items,
}

abbrev break : Bytes
break = 13 ∷ 10 ∷ []

-- One part: a file `f` with the data `ab`.
abbrev one_part : Bytes
one_part =
    codes "--B"
    ++ (break
        ++ (codes "Content-Disposition: d; name=\"n\"; filename=\"f\""
            ++ (break
                ++ (codes "Content-Type: t"
                    ++ (break ++ (break ++ (codes "ab" ++ (break ++ (codes "--B--" ++ break)))))))))

abbrev posted : Bytes → Bytes → HttpRequest
posted length_text body = record empty_request {
  boundary_str = codes "--B" ++ break;
  boundary_last_str = codes "--B--";
  content_length = points_to 0 length_text;
  content = points_to 0 body;
  buff = some body;
}

-- The text at a place of the buffer that a run leaves, and the sizes of the items.
abbrev text_at : Option Bytes → Option ℕ → Bytes
text_at none p = []
text_at (some bytes) none = []
text_at (some bytes) (some p) = c_string (drop p bytes)

abbrev summary : Run HttpRequest (Unit {0}) → List (ℕ × List Bytes)
summary (ok _ r) = elim r.items [
  | [] ↦ []
  | x ∷ xs ↦
      (
        x.size,
        text_at r.buff x.name
            ∷ text_at r.buff x.filename
            ∷ text_at r.buff x.content_disposition
            ∷ text_at r.buff x.item_type
            ∷ text_at r.buff x.data_at
            ∷ [],
      )
      ∷ []
]
summary _ = []

one_item :
    summary (extract_post_data_items (posted (codes "82") one_part))
    ≡ (2, codes "n" ∷ codes "f" ∷ codes "d" ∷ (codes "t" ++ 13 ∷ []) ∷ codes "ab" ∷ []) ∷ []
unfolding extract_post_data_items item_loop add_item read_item next_section next_or_last find_value
    cut_value strchr_from memmem write_null buffer_bytes strstr strchr c_string starts_with atoi
    skip_spaces signed_atoi positive_atoi leading_digits
one_item = refl

-- An empty section: its length wraps around, and the search for a key runs out of the buffer.
empty_section :
    extract_post_data_items (
      posted
        (codes "17")
        (codes "--B" ++ (break ++ (codes "--B" ++ (break ++ (codes "--B--" ++ break))))))
    ≡ fault
unfolding extract_post_data_items item_loop add_item read_item next_section next_or_last find_value
    cut_value strchr_from memmem write_null buffer_bytes strstr strchr c_string starts_with atoi
    skip_spaces signed_atoi positive_atoi leading_digits
empty_section = refl
