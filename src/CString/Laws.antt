-- ===== src/CString/Laws.antt =====
-- Searching and cutting strings that are known to hold, or not to hold, a byte.
use ebotula.Prelude.{
  is_some, ◌||◌, false, ℕ, ◌≡◌, refl, Bool, true, not, ◌&&◌, [], ◌∷◌, ◌++◌, none, some, arith, ◌==◌,
  all,
}
use ebotula.CString.{
  mem, Bytes, take_until, strchr, strrchr, strtok_cut, streq, starts_with, strstr, strstr_before,
}

-- the byte does not occur in the string
abbrev pub lacks : ℕ → Bytes → Bool
lacks c s = all (λ x. not (x == c)) s

module _ (c : ℕ) where
  pub lacks-append : (s t : Bytes) → lacks c (s ++ t) ≡ (lacks c s && lacks c t)
  lacks-append [] t = refl
  lacks-append (x ∷ s) t = ground (arith, lacks-append s t)

  pub take_until-append :
      (s t : Bytes) → lacks c s ≡ true → take_until (λ x. x == c) (s ++ c ∷ t) ≡ s
  unfolding take_until
  take_until-append [] t h = ground arith
  take_until-append (x ∷ s) t h = ground (arith, take_until-append s t)

  pub take_until-fix : (s : Bytes) → lacks c s ≡ true → take_until (λ x. x == c) s ≡ s
  unfolding take_until
  take_until-fix [] h = refl
  take_until-fix (x ∷ s) h = ground (arith, take_until-fix s)

  pub strchr-append : (s t : Bytes) → lacks c s ≡ true → strchr c (s ++ t) ≡ strchr c t
  unfolding strchr
  strchr-append [] t h = refl
  strchr-append (x ∷ s) t h = ground (arith, strchr-append s t)

  pub strchr-here : (t : Bytes) → strchr c (c ∷ t) ≡ some (c ∷ t)
  unfolding strchr
  strchr-here t = ground arith

  pub strchr-none : (s : Bytes) → lacks c s ≡ true → strchr c s ≡ none
  unfolding strchr
  strchr-none [] h = refl
  strchr-none (x ∷ s) h = ground (arith, strchr-none s)

  pub strrchr-none : (s : Bytes) → lacks c s ≡ true → strrchr c s ≡ none
  unfolding strrchr
  strrchr-none [] h = refl
  strrchr-none (x ∷ s) h = ground (arith, strrchr-none s)

  pub strrchr-append : (s t : Bytes) → lacks c t ≡ true → strrchr c (s ++ c ∷ t) ≡ some (c ∷ t)
  unfolding strrchr
  strrchr-append [] t h = ground (arith, strrchr-none t)
  strrchr-append (x ∷ s) t h = rw (strrchr-append s t h)

  pub strtok_cut-fix : (s : Bytes) → lacks c s ≡ true → strtok_cut c s ≡ s
  unfolding strtok_cut
  strtok_cut-fix [] h = refl
  strtok_cut-fix (x ∷ s) h = ground (arith, take_until-fix (x ∷ s))

  pub strtok_cut-append :
      (x : ℕ) (s t : Bytes) → lacks c (x ∷ s) ≡ true → strtok_cut c ((x ∷ s) ++ c ∷ t) ≡ x ∷ s
  unfolding strtok_cut
  strtok_cut-append x s t h = ground (arith, take_until-append (x ∷ s) t)

pub streq_refl : (s : Bytes) → streq s s ≡ true
unfolding streq
streq_refl [] = refl
streq_refl (x ∷ s) = ground (arith, streq_refl s)

pub streq→eq : (s t : Bytes) → streq s t ≡ true → s ≡ t
unfolding streq
streq→eq [] [] h = refl
streq→eq [] (y ∷ t) h = ground arith
streq→eq (x ∷ s) [] h = ground arith
streq→eq (x ∷ s) (y ∷ t) h = ground (arith, streq→eq s t)

pub starts_with-append : (p s : Bytes) → starts_with p (p ++ s) ≡ true
unfolding starts_with
starts_with-append [] s = refl
starts_with-append (x ∷ p) s = ground (arith, starts_with-append p s)

module _ (p : Bytes) (c : ℕ) (cs : Bytes) where
  pub strstr-here :
      starts_with p (c ∷ cs) ≡ true
      → (strstr p (c ∷ cs) ≡ some (c ∷ cs)) × (strstr_before p (c ∷ cs) ≡ [])
  unfolding strstr strstr_before
  strstr-here e = (rw e, rw e)

  pub strstr-skip :
      starts_with p (c ∷ cs) ≡ false
      → (strstr p (c ∷ cs) ≡ strstr p cs) × (strstr_before p (c ∷ cs) ≡ c ∷ strstr_before p cs)
  unfolding strstr strstr_before
  strstr-skip e = (rw e, rw e)

pub strchr-mem : (c : ℕ) (s : Bytes) → is_some (strchr c s) ≡ mem c s
unfolding strchr
strchr-mem c [] = refl
strchr-mem c (x ∷ s) = ground (arith, strchr-mem c s)

pub mem-append : (c : ℕ) (s t : Bytes) → mem c (s ++ t) ≡ (mem c s || mem c t)
mem-append c [] t = refl
mem-append c (x ∷ s) t = ground (arith, mem-append c s t)
