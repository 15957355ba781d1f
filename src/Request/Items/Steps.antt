-- ===== src/Request/Items/Steps.antt =====
-- The reads and writes of `extract_post_data_items` in the request's buffer: what they find lies in it.
use network_server.Base.{
  ℕ, zero, suc, ◌+◌, ◌≤◌, ◌≡◌, refl, inl, inr, Option, none, some, [], ◌∷◌, ◌++◌, arith, length,
  length-append, length-set, take, drop, set, if◌then◌else◌, Bytes, ltb, Bool-cases, Option-cases,
  ok, fault, Run, Ends, gives, undefined, Ends-bind, or_fault-Ends, Ends-weaken, and_then, ◌∙◌, ap,
  sym, subst,
}
use network_server.CString.{strstr}
use network_server.CString.Search.{strstr-length}
use network_server.Request.{HttpRequest}
use network_server.Request.Items.{buffer_bytes, region, write_null, memmem, strchr_from}

abbrev pub size_of : Option Bytes → ℕ
size_of none = 0
size_of (some bytes) = length bytes

abbrev pub buffer_size : HttpRequest → ℕ
buffer_size r = size_of r.buff

-- A place in a buffer of `size` bytes and a zero byte, or just behind it, or none.
abbrev pub Within : ℕ → Option ℕ → Type 0
Within size none = Unit {0}
Within size (some p) = p ≤ size + 1

length-take : (n : ℕ) (s : Bytes) → length (take n s) ≤ n
length-take zero s = omega arith
length-take (suc n) [] = omega arith
length-take (suc n) (b ∷ s) = omega (arith, length-take n s)

-- What `memmem` finds from `p` on: a needle that ends in the buffer.
abbrev pub Found : (size p needle : ℕ) → Option ℕ → Type 0
Found size p needle none = Unit {0}
Found size p needle (some q) = (p ≤ q) × (q + needle ≤ size + 1)

buffer-Ends :
    (o : Option Bytes) (r : HttpRequest)
    → Ends
        (λ mem s. (s ≡ r) × (length mem ≡ size_of o + 1))
        (elim o as (λ x. Run HttpRequest Bytes) [
          | none ↦ fault
          | some bytes ↦ ok (bytes ++ 0 ∷ []) r
        ])
buffer-Ends none r = undefined
buffer-Ends (some bytes) r = gives (refl, length-append bytes (0 ∷ []))

pub buffer_bytes-Ends :
    (r : HttpRequest) → Ends (λ mem s. (s ≡ r) × (length mem ≡ buffer_size r + 1)) (buffer_bytes r)
unfolding buffer_bytes
buffer_bytes-Ends r = buffer-Ends r.buff r

region_lem :
    (p n : ℕ) (mem bytes : Bytes)
    → region p n mem ≡ some bytes
    → (p + n ≤ length mem) × (length bytes ≤ n)
region_lem p n mem bytes e = elim (Bool-cases (ltb (length mem) (p + n))) [
  | inl outside ↦ ground (arith, outside)
  | inr inside ↦ (ground (arith, inside), ground (arith, inside, length-take n (drop p mem)))
]

place-Found :
    (size p : ℕ) (needle bytes : Bytes)
    → p + length bytes ≤ size + 1
    → Found size p (length needle) (elim (strstr needle bytes) as (λ x. Option ℕ) [
      | none ↦ none
      | some (front, _) ↦ some (p + length front)
    ])
place-Found size p needle bytes h = elim (Option-cases (strstr needle bytes)) [
  | inl nowhere ↦ rw nowhere tt
  | inr ((front, found), e) ↦
      rw e (omega arith, omega (arith, strstr-length needle bytes front found e))
]

memmem-Ends :
    (p n : ℕ) (needle : Bytes) (r : HttpRequest)
    → Ends
        (λ found s. (s ≡ r) × Found (buffer_size r) p (length needle) found)
        (memmem p n needle r)
unfolding memmem
memmem-Ends p n needle r = Ends-bind (buffer_bytes-Ends r) λ mem s (e, size).
    Ends-bind (or_fault-Ends (region p n mem) s) λ bytes t (f, inside). gives (
      f ∙ e,
      place-Found (buffer_size r) p needle bytes
          (omega (arith, size, region_lem p n mem bytes inside)),
    )

-- A run that keeps the size of the buffer and the items, with a result that has a property.
pub record Same (r s : HttpRequest) : Type 0 where
  pub same_size : buffer_size s ≡ buffer_size r
  pub same_items : s.items ≡ r.items

abbrev pub Step : {A : Type 0} → HttpRequest → (A → Type 0) → Run HttpRequest A → Type 0
Step r Q run = Ends (λ a s. Same r s × Q a) run

pub step_to : {r s : HttpRequest} → s ≡ r → Same r s
step_to e = record { same_size = ap buffer_size e; same_items = ap (λ r. r.items) e }

pub Step-bind :
    {A B : Type 0} {Q : A → Type 0} {Q' : B → Type 0} {r : HttpRequest} {run : Run HttpRequest A}
    {k : A → HttpRequest → Run HttpRequest B}
    → Step r Q run
    → ((a : A) (s : HttpRequest) → buffer_size s ≡ buffer_size r → Q a → Step s Q' (k a s))
    → Step r Q' (and_then run k)
Step-bind first next = Ends-bind first λ a s (same, q).
    Ends-weaken (next a s same.same_size q) λ b u (later, q'). (
      record {
        same_size = later.same_size ∙ same.same_size;
        same_items = later.same_items ∙ same.same_items;
      },
      q',
    )

null_Step :
    (o : Option Bytes) (p : ℕ) (r : HttpRequest)
    → r.buff ≡ o
    → Step r
        (λ _. Unit {0})
        (elim o as (λ x. Run HttpRequest (Unit {0})) [
          | none ↦ fault
          | some bytes ↦
              if ltb (length bytes) p
              then fault
              else ok tt (record r { buff = some (set bytes p 0) })
        ])
null_Step none p r e = undefined
null_Step (some bytes) p r e = elim (Bool-cases (ltb (length bytes) p)) [
  | inl outside ↦ rw outside undefined
  | inr inside ↦ rw inside (
      gives
        (record { same_size = length-set bytes p 0 ∙ ap size_of (sym e); same_items = refl }, tt))
]

pub write_null-Step : (p : ℕ) (r : HttpRequest) → Step r (λ _. Unit {0}) (write_null p r)
unfolding write_null
write_null-Step p r = null_Step r.buff p r refl

pub memmem-Step :
    (size p n : ℕ) (needle : Bytes) (r : HttpRequest)
    → buffer_size r ≡ size
    → Step r (Found size p (length needle)) (memmem p n needle r)
memmem-Step size p n needle r known =
    Ends-weaken (memmem-Ends p n needle r)
      λ found s (e, q). (step_to e, subst (λ m. Found m p (length needle) found) known q)

pub strchr_from-Step : (p c : ℕ) (r : HttpRequest) → Step r (λ _. Unit {0}) (strchr_from p c r)
unfolding strchr_from
strchr_from-Step p c r = Ends-bind (buffer_bytes-Ends r) λ mem s (e, size). gives (step_to e, tt)
