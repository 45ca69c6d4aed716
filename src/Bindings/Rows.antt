-- ===== src/Bindings/Rows.antt =====
-- The rows of app/core/resource_binding.py: what changes of the table do to the row of a place.
use fcam_gateway.Prelude.{
  ℕ, ◌≡◌, refl, sym, ap, ◌∙◌, true, false, Option, none, List, [], ◌∷◌, arith, Bool-cases, inl, inr,
  if◌then◌else◌,
}
use fcam_gateway.Prelude.Text.{same, same_refl, same_sound}
use fcam_gateway.Models.Rows.{map_option}
use fcam_gateway.Bindings.{Place, Binding, is_at, find, set_expiry, remove}

abbrev pub at_expiry : Option ℕ → Binding → Binding
at_expiry e b = record b { expires_at = e }

pub is_at_refl : (p : Place) → is_at p p ≡ true
is_at_refl p = ground (arith, same_refl p.resource_type, same_refl p.resource_id)

pub is_at_sound : (p q : Place) → is_at p q ≡ true → p ≡ q
is_at_sound p q h =
    let i : p.client_id ≡ q.client_id = ground (arith, h) in
    let t : same p.resource_type q.resource_type ≡ true = ground (arith, h) in
    let r : same p.resource_id q.resource_id ≡ true = ground (arith, h) in
    let k = same_sound p.resource_type q.resource_type t in
    let l = same_sound p.resource_id q.resource_id r in cc

-- what a change of expiry does to the row of a place
pub find-set_expiry :
    (q p : Place) (e : Option ℕ) (bs : List Binding)
    → find q (set_expiry p e bs)
      ≡ (if is_at q p then map_option (at_expiry e) (find q bs) else find q bs)
unfolding find set_expiry
find-set_expiry q p e [] = ground arith
find-set_expiry q p e (b ∷ bs) =
    let ih = find-set_expiry q p e bs in
    elim (Bool-cases (is_at p b.place)) [
      | inl h ↦
          let c : is_at q b.place ≡ is_at q p = ap (is_at q) (sym (is_at_sound p b.place h)) in
          elim (Bool-cases (is_at q p)) [
            | inl m ↦ rw (h, c, m) refl
            | inr m ↦ rw (h, c, m) (rw m at ih)
          ]
      | inr h ↦ elim (Bool-cases (is_at q p)) [
        | inl m ↦
            let c : is_at q b.place ≡ false = ap (λ x. is_at x b.place) (is_at_sound q p m) ∙ h in
            rw (h, c, m) (rw m at ih)
        | inr m ↦ elim (Bool-cases (is_at q b.place)) [
          | inl c ↦ rw (h, c, m) refl
          | inr c ↦ rw (h, c, m) (rw m at ih)
        ]
      ]
    ]

pub find-remove :
    (q p : Place) (bs : List Binding)
    → find q (remove p bs) ≡ (if is_at q p then none else find q bs)
unfolding find remove
find-remove q p [] = ground arith
find-remove q p (b ∷ bs) =
    let ih = find-remove q p bs in
    elim (Bool-cases (is_at p b.place)) [
      | inl h ↦
          let c : is_at q b.place ≡ is_at q p = ap (is_at q) (sym (is_at_sound p b.place h)) in
          elim (Bool-cases (is_at q p)) [
            | inl m ↦ rw (h, m) (rw m at ih)
            | inr m ↦ rw (h, c, m) (rw m at ih)
          ]
      | inr h ↦ elim (Bool-cases (is_at q p)) [
        | inl m ↦
            let c : is_at q b.place ≡ false = ap (λ x. is_at x b.place) (is_at_sound q p m) ∙ h in
            rw (h, c, m) (rw m at ih)
        | inr m ↦ elim (Bool-cases (is_at q b.place)) [
          | inl c ↦ rw (h, c, m) refl
          | inr c ↦ rw (h, c, m) (rw m at ih)
        ]
      ]
    ]
