-- ===== src/Request/Items.antt =====
-- src/http_request.cpp: `extract_post_data_items`, on the bytes of the request's buffer. A pointer into
-- the buffer is a place in it.
pub mod Steps
pub mod Total
use network_server.Base.{
  ℕ, zero, suc, ◌+◌, ◌-◌, Bool, true, false, ◌||◌, Option, none, some, List, [], ◌∷◌, ◌++◌, ltb,
  ◌==◌, if◌then◌else◌, Bytes, codes, length, take, drop, set, atoi, sub_size, ok, fault,
  out_of_fuel, pure, read, modify, or_fault, ◌>>=◌, ◌>>◌,
}
use network_server.CString.{strchr, strstr, c_string}
use network_server.Request.{PostContent, HttpRequest, RequestCmd, char_text, char_place}
use network_server.Request.Build.{double_break}

-- The buffer: the bytes that were received, and a zero byte.
unfoldable pub buffer_bytes : RequestCmd Bytes
buffer_bytes r = elim r.buff [ none ↦ fault | some bytes ↦ ok (bytes ++ 0 ∷ []) r ]

-- `*p = '\0'`: undefined behind the zero byte that ends the buffer. That byte itself stays as it is.
unfoldable pub write_null : ℕ → RequestCmd (Unit {0})
write_null p r = elim r.buff [
  | none ↦ fault
  | some bytes ↦
      if ltb (length bytes) p then fault else ok tt (record r { buff = some (set bytes p 0) })
]

abbrev pub region : ℕ → ℕ → Bytes → Option Bytes
region p n mem = if ltb (length mem) (p + n) then none else some (take n (drop p mem))

-- `memmem`. It is undefined behaviour if the `n` bytes at `p` are not all in the buffer.
unfoldable pub memmem : (p n : ℕ) → Bytes → RequestCmd (Option ℕ)
unfolding buffer_bytes
memmem p n needle = do
  mem ← buffer_bytes
  bytes ← or_fault (region p n mem)
  pure (elim (strstr needle bytes) [ none ↦ none | some (front, _) ↦ some (p + length front) ])

-- `strchr` from a place, as a place.
unfoldable pub strchr_from : (p c : ℕ) → RequestCmd (Option ℕ)
unfolding buffer_bytes
strchr_from p c = do
  mem ← buffer_bytes
  let text = c_string (drop p mem)
  pure (elim (strchr c text) [ none ↦ none | some rest ↦ some (p + (length text - length rest)) ])

abbrev pub cut_at : Option ℕ → RequestCmd (Unit {0})
cut_at none = pure tt
cut_at (some q) = write_null q

-- The value behind a key that was found, cut at the byte `c`.
unfoldable pub cut_value : (size c : ℕ) → Option ℕ → RequestCmd (Option ℕ)
unfolding strchr_from write_null
cut_value size c none = pure none
cut_value size c (some p) = do cut ← strchr_from (p + size) c; cut_at cut; pure (some (p + size))

-- The place behind a key in the section at `data_ptr`, whose text is cut at the byte `c`.
unfoldable pub find_value : (data_ptr section : ℕ) → Bytes → (c : ℕ) → RequestCmd (Option ℕ)
unfolding memmem cut_value
find_value data_ptr section key c = do
  found ← memmem data_ptr section key
  cut_value (length key) c found

unfoldable pub next_or_last : Bytes → (data_ptr max_ptr : ℕ) → Option ℕ → RequestCmd ℕ
unfolding memmem
next_or_last boundary_last data_ptr max_ptr (some p) = pure p
next_or_last boundary_last data_ptr max_ptr none = do
  last ← memmem data_ptr (max_ptr - data_ptr) boundary_last
  pure (elim last [ none ↦ max_ptr | some p ↦ p ])

-- Where the section at `data_ptr` ends: at a boundary, at the last one, or with the body.
unfoldable pub next_section :
    (boundary boundary_last : Bytes) → (data_ptr max_ptr : ℕ) → RequestCmd ℕ
unfolding memmem next_or_last
next_section boundary boundary_last data_ptr max_ptr = do
  next ← memmem data_ptr (max_ptr - data_ptr) boundary
  next_or_last boundary_last data_ptr max_ptr next

-- The data begin behind an empty line, which is sought in all that is left of the body.
unfoldable pub read_item :
    (boundary boundary_last : Bytes) → (data_ptr max_ptr : ℕ) → RequestCmd PostContent
unfolding next_section write_null memmem find_value
read_item boundary boundary_last data_ptr max_ptr = do
  next ← next_section boundary boundary_last data_ptr max_ptr
  write_null (next - 2)
  let section = sub_size (sub_size (sub_size next 2) data_ptr) 1
  empty_line ← memmem data_ptr (max_ptr - data_ptr) double_break
  disposition ← find_value data_ptr section (codes "Content-Disposition: ") 59
  name ← find_value data_ptr section (codes "name=\"") 34
  filename ← find_value data_ptr section (codes "filename=\"") 34
  type ← find_value data_ptr section (codes "Content-Type: ") 10
  pure (record {
    name = name;
    filename = filename;
    item_type = type;
    content_disposition = disposition;
    size = elim empty_line [ none ↦ 0 | some p ↦ sub_size (sub_size next (p + 4)) 2 ];
    data_at = elim empty_line [ none ↦ none | some p ↦ some (p + 4) ];
  })

-- The section behind a boundary, if the body goes on there.
unfoldable pub add_item :
    (boundary boundary_last : Bytes) → (data_ptr max_ptr : ℕ) → RequestCmd (Unit {0})
unfolding read_item
add_item boundary boundary_last data_ptr max_ptr =
    if ltb data_ptr max_ptr
    then (do
      item ← read_item boundary boundary_last data_ptr max_ptr
      modify λ r. record r { items = r.items ++ item ∷ [] })
    else pure tt

unfoldable pub item_loop :
    (boundary boundary_last : Bytes) → (fuel item_ptr max_ptr : ℕ) → RequestCmd (Unit {0})
unfolding memmem add_item
item_loop boundary boundary_last zero item_ptr max_ptr = λ _. out_of_fuel
item_loop boundary boundary_last (suc fuel) item_ptr max_ptr = do
  found ← memmem item_ptr (max_ptr - item_ptr) boundary
  elim found [
    | none ↦ pure tt
    | some p ↦ do
      add_item boundary boundary_last (p + length boundary) max_ptr
      item_loop boundary boundary_last fuel (p + length boundary) max_ptr
  ]

abbrev pub is_empty : Bytes → Bool
is_empty [] = true
is_empty (b ∷ s) = false

unfoldable pub extract_post_data_items : RequestCmd (Unit {0})
unfolding item_loop buffer_bytes
extract_post_data_items = do
  r ← read
  if is_empty r.boundary_str || is_empty r.boundary_last_str then pure tt else do
    length_text ← or_fault (char_text r.content_length)
    let content_length_num = atoi length_text
    if content_length_num == 0 then pure tt else do
      item_ptr ← or_fault (char_place r.content)
      mem ← buffer_bytes
      item_loop r.boundary_str r.boundary_last_str (length mem + 1) item_ptr
          (item_ptr + content_length_num - 1)
