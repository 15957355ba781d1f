-- ===== src/Request/Printed.antt =====
-- Header lines as a client prints them, for the parsers of src/http_request.cpp.
use network_server.Base.{
  ℕ, ◌+◌, ◌-◌, ◌≤◌, ◌≡◌, refl, ap, sym, ◌∙◌, some, List, [], ◌∷◌, ◌++◌, append_assoc, append-nil,
  arith, length, length-append, Bytes, starts_with, and_then, and_then-next, pure, ◌>>◌,
}
use network_server.CString.{strtok, strstr}
use network_server.CString.Tokens.{
  Plain, Plain-append, Plain-weaken, token-stop, token-end, skip_delims-front,
}
use network_server.CString.Search.{strstr-Plain}
use network_server.Request.{points_to, HttpRequest, RequestCmd, assign_header, http_header_parser}
use network_server.Request.Build.{line_break, double_break}
use network_server.Request.Lines.{text_lines, text_lines-first, text_lines-delim, text_lines-nil}
use network_server.Request.Headers.{Part, header_line, http_header_parser-header_line}

pub record Header : Type 0 where
  pub key : Bytes
  pub value : Bytes

pub record Printable (h : Header) : Type 0 where
  pub some_key : 1 ≤ length h.key
  pub some_value : 1 ≤ length h.value
  pub key_part : Part h.key
  pub value_part : Part h.value

abbrev pub AllPrintable : List Header → Type 0
AllPrintable [] = Unit {0}
AllPrintable (h ∷ hs) = Printable h × AllPrintable hs

-- The header lines, each behind a line break.
abbrev pub header_text : List Header → Bytes
header_text [] = []
header_text (h ∷ hs) = 13 ∷ 10 ∷ (header_line h.key h.value ++ header_text hs)

-- Every header is assigned, with the place of its value.
abbrev pub assign_headers : ℕ → List Header → RequestCmd (Unit {0})
assign_headers place [] = pure tt
assign_headers place (h ∷ hs) = do
  assign_header h.key (points_to (place + 2 + length h.key + 2) h.value)
  assign_headers (place + 2 + length (header_line h.key h.value)) hs

Part-line : (s : Bytes) → Part s → Plain line_break s
Part-line s p = Plain-weaken (58 ∷ 13 ∷ 10 ∷ 0 ∷ []) line_break s (λ b out. ground arith) p

header-Plain : (h : Header) → Printable h → Plain line_break (header_line h.key h.value)
header-Plain h p =
    Plain-append line_break h.key (58 ∷ 32 ∷ h.value) (Part-line h.key p.key_part)
      (refl, (refl, Part-line h.value p.value_part))

-- What `strtok_r` leaves behind a line in front of header lines.
pub record Behind (line : Bytes) (hs : List Header) (rest : Bytes) : Type 0 where
  pub taken : strtok line_break (line ++ header_text hs) ≡ some (line, rest)
  pub same :
      (place : ℕ) (r : HttpRequest)
      → text_lines line_break (place + (length (line ++ header_text hs) - length rest)) rest r
        ≡ text_lines line_break (place + length line) (header_text hs) r

at_line :
    {p q : ℕ} (text : Bytes) (r : HttpRequest)
    → p ≡ q
    → text_lines line_break p text r ≡ text_lines line_break q text r
at_line text r e = ap (λ p. text_lines line_break p text r) e

pub line-Behind :
    (line : Bytes) (hs : List Header)
    → 1 ≤ length line
    → Plain line_break line
    → (rest : Bytes) × Behind line hs rest
line-Behind line [] some_line plain = (
  [],
  record {
    taken = ap (strtok line_break) (append-nil line) ∙ token-end line_break line some_line plain;
    same = λ place r. at_line [] r (omega (arith, length-append line []));
  },
)
line-Behind line (h ∷ hs) some_line plain =
    let rest = 10 ∷ (header_line h.key h.value ++ header_text hs) in
    (
      rest,
      record {
        taken = token-stop line_break line rest 13 some_line plain refl;
        same = λ place r.
            at_line rest r (omega (arith, length-append line (13 ∷ rest)))
            ∙ sym (text_lines-delim line_break (place + length line) 13 rest r refl);
      },
    )

text_lines-line :
    (place : ℕ) (line : Bytes) (hs : List Header) (r : HttpRequest)
    → 1 ≤ length line
    → Plain line_break line
    → text_lines line_break place (line ++ header_text hs) r
      ≡ and_then
          (http_header_parser place line r)
          (λ _. text_lines line_break (place + length line) (header_text hs))
text_lines-line place line hs r some_line plain =
    let (rest, behind) = line-Behind line hs some_line plain in
    text_lines-first line_break place (line ++ header_text hs) line rest r behind.taken
      (skip_delims-front line_break line (header_text hs) some_line plain)
    ∙ and_then-next _ (λ _ q. behind.same place q)

pub header_text-assign_headers :
    (place : ℕ) (hs : List Header) (r : HttpRequest)
    → AllPrintable hs
    → text_lines line_break place (header_text hs) r ≡ assign_headers place hs r
header_text-assign_headers place [] r _ = text_lines-nil line_break place r
header_text-assign_headers place (h ∷ hs) r (p, ps) =
    let line = header_line h.key h.value in
    text_lines-delim line_break place 13 (10 ∷ (line ++ header_text hs)) r refl
    ∙ text_lines-delim line_break (place + 1) 10 (line ++ header_text hs) r refl
    ∙ ap (λ p. text_lines line_break p (line ++ header_text hs) r) {y = place + 2} (omega arith)
    ∙ text_lines-line (place + 2) line hs r (omega (arith, length-append h.key (58 ∷ 32 ∷ h.value)))
        (header-Plain h p)
    ∙ ap (λ m. and_then m (λ _. text_lines line_break (place + 2 + length line) (header_text hs)))
        (http_header_parser-header_line (place + 2) h.key h.value r p.some_key p.some_value
          p.key_part p.value_part)
    ∙ and_then-next _ (λ _ q. header_text-assign_headers (place + 2 + length line) hs q ps)

strstr-here :
    (tail : Bytes) → strstr double_break (double_break ++ tail) ≡ some ([], double_break ++ tail)
unfolding strstr starts_with
strstr-here tail = refl

-- A line break in front of a line is not an empty line.
strstr-line_break :
    (line t front found : Bytes)
    → 1 ≤ length line
    → Plain line_break line
    → strstr double_break (line ++ t) ≡ some (front, found)
    → strstr double_break (13 ∷ 10 ∷ (line ++ t)) ≡ some (13 ∷ 10 ∷ front, found)
unfolding strstr starts_with
strstr-line_break [] t front found some_line plain e = absurd (omega arith)
strstr-line_break (b ∷ s) t front found some_line (now, plain) e = ground arith

no_return : (s : Bytes) → Plain line_break s → Plain (13 ∷ []) s
no_return s p = Plain-weaken line_break (13 ∷ []) s (λ b out. ground arith) p

some_header : (h : Header) → Printable h → 1 ≤ length (header_line h.key h.value)
some_header h p = omega (arith, length-append h.key (58 ∷ 32 ∷ h.value))

pub strstr-header_text :
    (hs : List Header) (front tail : Bytes)
    → AllPrintable hs
    → Plain (13 ∷ []) front
    → strstr double_break (front ++ (header_text hs ++ (double_break ++ tail)))
      ≡ some (front ++ header_text hs, double_break ++ tail)
strstr-header_text [] front tail _ plain =
    strstr-Plain 13 (10 ∷ 13 ∷ 10 ∷ []) front (double_break ++ tail) [] (double_break ++ tail) plain
      (strstr-here tail)
strstr-header_text (h ∷ hs) front tail (p, ps) plain =
    let line = header_line h.key h.value in
    let rest = header_text hs ++ (double_break ++ tail) in
    let later = strstr-header_text hs line tail ps (no_return line (header-Plain h p)) in
    let broken =
      strstr-line_break line rest (line ++ header_text hs) (double_break ++ tail) (some_header h p)
        (header-Plain h p) later in
    strstr-Plain 13 (10 ∷ 13 ∷ 10 ∷ []) front _ (header_text (h ∷ hs)) (double_break ++ tail) plain
      (ap (λ t. strstr double_break (13 ∷ 10 ∷ t))
          (append_assoc line (header_text hs) (double_break ++ tail))
        ∙ broken)

Part-text : (s : Bytes) → Part s → Plain (0 ∷ []) s
Part-text s p = Plain-weaken (58 ∷ 13 ∷ 10 ∷ 0 ∷ []) (0 ∷ []) s (λ b out. ground arith) p

pub header_text-Plain : (hs : List Header) → AllPrintable hs → Plain (0 ∷ []) (header_text hs)
header_text-Plain [] _ = tt
header_text-Plain (h ∷ hs) (p, ps) = (
  refl,
  (
    refl,
    Plain-append (0 ∷ []) (header_line h.key h.value) (header_text hs)
        (Plain-append (0 ∷ []) h.key (58 ∷ 32 ∷ h.value) (Part-text h.key p.key_part)
          (refl, (refl, Part-text h.value p.value_part)))
        (header_text-Plain hs ps),
  ),
)
