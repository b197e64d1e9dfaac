-- ===== src/Reports/Payload/Texts.antt =====
-- Lemmas on the lengths of truncated texts and payloads.
use Prim.Native.String
use Prim.Native.String.append
use roya_api.Prelude.{
  String, ℕ, zero, suc, ◌+◌, ◌-◌, ◌/◌, ◌%◌, ◌^◌, ◌≤◌, ◌<◌, Bool, true, false, nat_beq, inl, inr,
  ◌≡◌, refl, ap, ◌∙◌, arith, leb, Bool-cases, if◌then◌else◌,
}
use roya_api.Prelude.Text.{decimal, decimal_from, digit, template}
use roya_api.Value.{Value, Values, Fields}
use roya_api.Reports.Payload.{is_pair, units, slice, truncate_text}

abbrev larger : ℕ → ℕ → ℕ
larger a b = if leb a b then b else a

-- The units of the longest text in a value.
unfoldable mutual
  pub longest : Value → ℕ
  longest Value.undefined = 0
  longest Value.null = 0
  longest (Value.boolean b) = 0
  longest (Value.number f t) = 0
  longest (Value.string s) = units s
  longest (Value.array vs) = longest_item vs
  longest (Value.object fs) = longest_field fs

  pub longest_item : Values → ℕ
  longest_item Values.nil = 0
  longest_item (Values.item v vs) = larger (longest v) (longest_item vs)

  pub longest_field : Fields → ℕ
  longest_field Fields.empty = 0
  longest_field (Fields.field k v fs) = larger (longest v) (longest_field fs)

units-append : (s t : String) → units (String.◌++◌ s t) ≡ units s + units t
units-append String.[] t = ap units (append.nil t) ∙ omega arith
units-append (String.◌∷◌ c s) t = ap units (append.cons c s t) ∙ omega (arith, units-append s t)

units-slice : (n : ℕ) (s : String) → units (slice n s) ≤ n
units-slice zero s = omega arith
units-slice (suc n) String.[] = omega arith
units-slice (suc zero) (String.◌∷◌ c s) = elim (Bool-cases (is_pair c)) [
  | inl pair ↦ rw pair (omega arith)
  | inr single ↦ rw single (rw single (omega arith))
]
units-slice (suc (suc n)) (String.◌∷◌ c s) = elim (Bool-cases (is_pair c)) [
  | inl pair ↦ rw pair (omega (arith, units-slice n s))
  | inr single ↦ rw single (omega (arith, units-slice (suc n) s))
]

units-choice :
    (b : Bool) (s t : String) → units s ≡ 1 → units t ≡ 1 → units (if b then s else t) ≡ 1
units-choice true s t p q = p
units-choice false s t p q = q

units-digit : (d : ℕ) → units (digit d) ≡ 1
units-digit d = units-choice (nat_beq d 0) _ _ refl (
    units-choice (nat_beq d 1) _ _ refl (
      units-choice (nat_beq d 2) _ _ refl (
        units-choice (nat_beq d 3) _ _ refl (
          units-choice (nat_beq d 4) _ _ refl (
            units-choice (nat_beq d 5) _ _ refl (
              units-choice (nat_beq d 6) _ _ refl (
                units-choice (nat_beq d 7) _ _ refl
                  (units-choice (nat_beq d 8) _ _ refl refl))))))))

units-decimal_from :
    (fuel d n : ℕ) (acc : String)
    → n < 10 ^ suc d
    → units (decimal_from fuel n acc) ≤ suc d + units acc
unfolding decimal_from
units-decimal_from zero d n acc h = omega arith
units-decimal_from (suc fuel) zero n acc h =
    let last : leb n 9 ≡ true = ground (arith, h) in
    rw last (omega (arith, units-append (digit n) acc, units-digit n))
units-decimal_from (suc fuel) (suc d) n acc h = elim (Bool-cases (leb n 9)) [
  | inl last ↦ rw last (omega (arith, units-append (digit n) acc, units-digit n))
  | inr more ↦ rw more (
      omega (
        arith,
        units-decimal_from fuel d (n / 10) (String.◌++◌ (digit (n % 10)) acc) (omega (arith, h)),
        units-append (digit (n % 10)) acc,
        units-digit (n % 10),
      ))
]

units-decimal : (d n : ℕ) → n < 10 ^ suc d → units (decimal n) ≤ suc d
unfolding decimal
units-decimal d n h = omega (arith, units-decimal_from (suc n) d n "" h)

pub units-truncate_text :
    (max d : ℕ) (s : String) → units s < 10 ^ suc d → units (truncate_text max s) ≤ max + 27 + d
unfolding template
units-truncate_text max d s h = elim (Bool-cases (leb (units s) max)) [
  | inl short ↦ rw short (ground (arith, short))
  | inr long ↦ rw long (
      omega (
        arith,
        units-append (slice max s) _,
        units-append "\n… [truncated " _,
        units-append (decimal (units s - max)) _,
        units-append " characters]" "",
        units-slice max s,
        units-decimal d (units s - max) (omega (arith, h)),
      ))
]

pub truncate_text-short : (max : ℕ) (s : String) → units s ≤ max → truncate_text max s ≡ s
truncate_text-short max s h = ground (arith, h)

-- The parts of a list are no longer than the longest.
pub larger-below : (a b n : ℕ) → larger a b < n → (a < n) × (b < n)
larger-below a b n h = ground (arith, h)

pub larger-bound : (a b n : ℕ) → larger a b ≤ n → (a ≤ n) × (b ≤ n)
larger-bound a b n h = ground (arith, h)

pub larger-le : (a b n : ℕ) → a ≤ n → b ≤ n → larger a b ≤ n
larger-le a b n p q = ground (arith, p, q)
