-- ===== src/SyncMap/Effects.antt =====
-- sync_map.go: what `rangeFn` does where its function changes the object at each value's address.
use roq.Common.{
  ℕ, ◌≡◌, refl, sym, ap, ◌∙◌, inl, inr, Bool, true, false, ◌||◌, List, [], ◌∷◌, ◌++◌, append-nil,
  append_assoc, ◌==◌, ==_iff, Bool-cases, if◌then◌else◌,
}
use roq.Common.GoMap.{GoMap}
use roq.SyncMap.{each}

-- The address is a value of the map.
unfoldable pub has_value : ℕ → GoMap ℕ → Bool
has_value r [] = false
has_value r ((k, v) ∷ m) = (v == r) || has_value r m

-- What `per` gives for each value of the map, in the map's order.
unfoldable pub collected {ℓ} : {C : Type ℓ} → (ℕ → List C) → GoMap ℕ → List C
collected per [] = []
collected per ((k, v) ∷ m) = per v ++ collected per m

collected_cong :
    {C : Type 0} (per per' : ℕ → List C) (m : GoMap ℕ)
    → ((v : ℕ) → per v ≡ per' v)
    → collected per m ≡ collected per' m
unfolding collected
collected_cong per per' [] e = refl
collected_cong per per' ((k, v) ∷ m) e =
    ap (λ l. l ++ collected per m) (e v) ∙ ap (λ l. per' v ++ l) (collected_cong per per' m e)

-- `g` is what `body` does to the object at its address; to do it twice is to do it once.
module _ {S F : Type 0} (obj : S → ℕ → F) (body : S → ℕ → S) (g : F → F)
    (acts : (st : S) (v r : ℕ) → obj (body st v) r ≡ (if v == r then g (obj st v) else obj st r))
    (idem : (x : F) → g (g x) ≡ g x) where
  once :
      (hit more : Bool) (x x' : F)
      → x' ≡ (if hit then g x else x)
      → (if more then g x' else x') ≡ (if hit || more then g x else x)
  once true true x x' e = ap g e ∙ idem x
  once true false x x' e = e
  once false true x x' e = ap g e
  once false false x x' e = e

  own : (s : S) (v r : ℕ) → obj (body s v) r ≡ (if v == r then g (obj s r) else obj s r)
  own s v r = elim (Bool-cases (v == r)) [
    | inl same ↦
        acts s v r ∙ ap (λ w. if v == r then g (obj s w) else obj s r) ((==_iff v r).0 same)
    | inr other ↦
        acts s v r
        ∙ ap (λ b. if b then g (obj s v) else obj s r) other
        ∙ sym (ap (λ b. if b then g (obj s r) else obj s r) other)
  ]

  pub each_acts :
      (m : GoMap ℕ) (s : S) (r : ℕ)
      → obj (each m (λ _ v st. body st v) s) r ≡ (if has_value r m then g (obj s r) else obj s r)
  unfolding each has_value
  each_acts [] s r = refl
  each_acts ((k, v) ∷ m) s r =
      each_acts m (body s v) r
      ∙ once (v == r) (has_value r m) (obj s r) (obj (body s v) r) (own s v r)

  -- `out` grows by what `per` gives for the object, which `g` leaves as it is.
  module _ {C : Type 0} (out : S → List C) (per : F → List C)
      (grows : (st : S) (v : ℕ) → out (body st v) ≡ out st ++ per (obj st v))
      (same_per : (x : F) → per (g x) ≡ per x) where
    per_own : (s : S) (v w : ℕ) → per (obj (body s v) w) ≡ per (obj s w)
    per_own s v w = elim (Bool-cases (v == w)) [
      | inl same ↦
          ap per (own s v w ∙ ap (λ b. if b then g (obj s w) else obj s w) same)
          ∙ same_per (obj s w)
      | inr other ↦ ap per (own s v w ∙ ap (λ b. if b then g (obj s w) else obj s w) other)
    ]

    pub each_collects :
        (m : GoMap ℕ) (s : S)
        → out (each m (λ _ v st. body st v) s) ≡ out s ++ collected (λ v. per (obj s v)) m
    unfolding each collected
    each_collects [] s = sym (append-nil (out s))
    each_collects ((k, v) ∷ m) s =
        let rest = collected (λ w. per (obj s w)) m in
        each_collects m (body s v)
        ∙ ap (λ l. out (body s v) ++ l)
            (collected_cong (λ w. per (obj (body s v) w)) (λ w. per (obj s w)) m (per_own s v))
        ∙ ap (λ l. l ++ rest) (grows s v)
        ∙ append_assoc (out s) (per (obj s v)) rest
