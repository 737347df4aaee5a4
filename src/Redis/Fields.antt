-- ===== src/Redis/Fields.antt =====
-- Fields with their values: what a hash stands for, and a set, whose members are fields with empty values.
use raft_bitcask.Prelude.{
  ◌+◌, ◌≡◌, refl, sym, ap, ◌∙◌, Bool, true, false, Bool-cases, inl, inr, Option, none, some, List,
  [], ◌∷◌, length, if◌then◌else◌, arith,
}
use raft_bitcask.Common.{Bytes}
use raft_bitcask.Redis.Options.{is_some}
use raft_bitcask.Index.KeyOrder.{key_eq, key_eq_self, eq_of_key_eq}

abbrev pub Fields : Type 0
Fields = List (Bytes × Bytes)

abbrev pub value_of : Fields → Bytes → Option Bytes
value_of [] f = none
value_of ((g, w) ∷ h) f = if key_eq g f then some w else value_of h f

abbrev pub insert_field : Bytes → Bytes → Fields → Fields
insert_field f v [] = (f, v) ∷ []
insert_field f v ((g, w) ∷ h) =
    let rest = insert_field f v h in if key_eq g f then (g, v) ∷ h else (g, w) ∷ rest

abbrev pub delete_field : Bytes → Fields → Fields
delete_field f [] = []
delete_field f ((g, w) ∷ h) = let rest = delete_field f h in if key_eq g f then h else (g, w) ∷ rest

-- No field stands twice.
abbrev pub Distinct : Fields → Type 0
Distinct [] = Unit
Distinct ((f, v) ∷ h) = (value_of h f ≡ none) × Distinct h

key_eq_swap : (a b : Bytes) → key_eq a b ≡ false → key_eq b a ≡ false
key_eq_swap a b e = elim (Bool-cases (key_eq b a)) [
  | inl same ↦
      ap (λ t. key_eq t a) (eq_of_key_eq b a same)
      ∙ key_eq_self a
      ∙ sym (key_eq_self b)
      ∙ ap (λ t. key_eq t b) (eq_of_key_eq b a same)
      ∙ e
  | inr other ↦ other
]

-- A field behind one that has another name, at a name that may be any.
by_name :
    (f g' g : Bytes) (a b c : Option Bytes)
    → key_eq g' f ≡ false
    → (if key_eq g' g then a else (if key_eq f g then b else c))
      ≡ (if key_eq f g then b else (if key_eq g' g then a else c))
by_name f g' g a b c other = elim (Bool-cases (key_eq g' g)) [
  | inl here ↦
      let apart : key_eq f g ≡ false =
        key_eq_swap g f (ap (λ t. key_eq t f) (sym (eq_of_key_eq g' g here)) ∙ other) in
      rw (here, apart) refl
  | inr there ↦ rw there refl
]

by_name_again :
    (g : Bytes) (b : Bool) (v : Option Bytes) (w : Bytes) (c : Option Bytes)
    → (if b then v else c) ≡ (if b then v else (if b then some w else c))
by_name_again g true v w c = refl
by_name_again g false v w c = refl

pub value_of-insert_field :
    (f v : Bytes) (h : Fields) (g : Bytes)
    → value_of (insert_field f v h) g ≡ (if key_eq f g then some v else value_of h g)
value_of-insert_field f v [] g = refl
value_of-insert_field f v ((g', w) ∷ h) g = elim (Bool-cases (key_eq g' f)) [
  | inl same ↦
      let e = eq_of_key_eq g' f same in
      rw same (rw e (by_name_again g (key_eq f g) (some v) w (value_of h g)))
  | inr other ↦
      rw (other, value_of-insert_field f v h g)
        (by_name f g' g (some w) (some v) (value_of h g) other)
]

pub value_of-delete_field :
    (f : Bytes) (h : Fields) (g : Bytes)
    → Distinct h
    → value_of (delete_field f h) g ≡ (if key_eq f g then none else value_of h g)
value_of-delete_field f [] g d = ground arith
value_of-delete_field f ((g', w) ∷ h) g (apart, d) = elim (Bool-cases (key_eq g' f)) [
  | inl same ↦
      let e = eq_of_key_eq g' f same in
      rw same (elim (Bool-cases (key_eq f g)) [
        | inl here ↦ rw here (ap (value_of h) (sym (e ∙ eq_of_key_eq f g here)) ∙ apart)
        | inr there ↦ rw (e, there) refl
      ])
  | inr other ↦
      rw (other, value_of-delete_field f h g d) (by_name f g' g (some w) none (value_of h g) other)
]

pub length-insert_field :
    (f v : Bytes) (h : Fields)
    → length (insert_field f v h) ≡ (if is_some (value_of h f) then length h else length h + 1)
length-insert_field f v [] = refl
length-insert_field f v ((g, w) ∷ h) = elim (Bool-cases (key_eq g f)) [
  | inl same ↦ rw same refl
  | inr other ↦ rw (other) (ground (arith, length-insert_field f v h))
]

pub length-delete_field :
    (f : Bytes) (h : Fields)
    → is_some (value_of h f) ≡ true
    → length (delete_field f h) + 1 ≡ length h
length-delete_field f [] = λ e. absurd (ground arith)
length-delete_field f ((g, w) ∷ h) = elim (Bool-cases (key_eq g f)) [
  | inl same ↦ rw same (λ e. omega arith)
  | inr other ↦ rw other (λ e. omega (arith, length-delete_field f h e))
]

pub insert_field-Distinct : (f v : Bytes) (h : Fields) → Distinct h → Distinct (insert_field f v h)
insert_field-Distinct f v [] d = (refl, tt)
insert_field-Distinct f v ((g, w) ∷ h) (apart, d) = elim (Bool-cases (key_eq g f)) [
  | inl same ↦ rw same (apart, d)
  | inr other ↦ rw other (
    value_of-insert_field f v h g ∙ rw (key_eq_swap g f other) apart,
    insert_field-Distinct f v h d,
  )
]

pub delete_field-Distinct : (f : Bytes) (h : Fields) → Distinct h → Distinct (delete_field f h)
delete_field-Distinct f [] d = tt
delete_field-Distinct f ((g, w) ∷ h) (apart, d) = elim (Bool-cases (key_eq g f)) [
  | inl same ↦ rw same d
  | inr other ↦ rw other (
    value_of-delete_field f h g d ∙ rw (key_eq_swap g f other) apart,
    delete_field-Distinct f h d,
  )
]
