-- ===== src/Ledger/Credits.antt =====
-- What the live payments of an invoice add up to, and how the writes of the payment handlers and of
-- the removal of an invoice change the sum.
use dev_ops_projet.Base.{
  ℕ, ℤ, pos, ◌+ℤ◌, ◌-ℤ◌, ◌≡◌, refl, sym, ◌∙◌, ap, ◌≢◌, Bool, true, not, ◌&&◌, some, inl, inr, List,
  [], ◌∷◌, ◌++◌, arith, All, Bool-cases, ◌==◌, if◌then◌else◌, int_laws, +ℤ_comm, +ℤ_assoc,
}
use dev_ops_projet.Mongo.{first, update_first, update_all}
use dev_ops_projet.Documents.{Payment}

-- What one payment gives to invoice `k`.
abbrev pub share : ℕ → Payment → ℤ
share k p = if p.invoice == k && not p.removed then p.amount else pos 0

pub credits : ℕ → List Payment → ℤ
credits k [] = pos 0
credits k (p ∷ ps) = share k p +ℤ credits k ps

pub credits-snoc :
    (k : ℕ) (ps : List Payment) (p : Payment) → credits k (ps ++ p ∷ []) ≡ credits k ps +ℤ share k p
unfolding credits
credits-snoc k [] p = +ℤ_comm _ _
credits-snoc k (q ∷ ps) p =
    ap (λ c. share k q +ℤ c) (credits-snoc k ps p) ∙ sym (+ℤ_assoc (share k q) _ _)

-- Only the first match changes what it gives.
pub credits-update_first :
    (k : ℕ) (t : Payment → Bool) (f : Payment → Payment) (ps : List Payment) (d : Payment)
    → first t ps ≡ some d
    → credits k (update_first t f ps) ≡ credits k ps +ℤ (share k (f d) -ℤ share k d)
unfolding credits
credits-update_first k t f [] d e = cc
credits-update_first k t f (p ∷ ps) d e = elim (Bool-cases (t p)) [
  | inl h ↦
      let same : p ≡ d = cc in rw (h, same) (swap_share (share k (f d)) (share k d) (credits k ps))
  | inr h ↦ rw h (
      ap (λ c. share k p +ℤ c) (credits-update_first k t f ps d (cc))
      ∙ sym (+ℤ_assoc (share k p) (credits k ps) _))
]
  where
    swap_share : (new old rest : ℤ) → new +ℤ rest ≡ old +ℤ rest +ℤ (new -ℤ old)
    swap_share new old rest = omega int_laws

-- Payments of other invoices are not counted, and those removed with invoice `j` are of no other.
pub credits-unused :
    (k : ℕ) (ps : List Payment) → All (λ p. p.invoice ≢ k) ps → credits k ps ≡ pos 0
unfolding credits
credits-unused k [] _ = refl
credits-unused k (p ∷ ps) (h, hs) =
    let none_here : share k p ≡ pos 0 = ground arith in
    rw (none_here, credits-unused k ps hs) (omega int_laws)

pub credits-remove_all :
    (k j : ℕ) (ps : List Payment)
    → k ≢ j
    → credits k (update_all (λ p. p.invoice == j) (λ p. record p { removed = true }) ps)
      ≡ credits k ps
unfolding credits
credits-remove_all k j [] ne = refl
credits-remove_all k j (p ∷ ps) ne = elim (Bool-cases (p.invoice == j)) [
  | inl e ↦ rw e (cc (credits-remove_all k j ps ne, unshared e))
  | inr e ↦ rw e (cc (credits-remove_all k j ps ne))
]
  where
    unshared : (p.invoice == j) ≡ true → share k (record p { removed = true }) ≡ share k p
    unshared e = ground arith
