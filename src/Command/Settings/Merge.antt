-- ===== src/Command/Settings/Merge.antt =====
-- The loop of `chanmode` in src/command.c, slot by slot.
use ebotula.Prelude.{
  ℕ, zero, suc, ◌+◌, ◌<◌, ◌≤◌, ◌≡◌, refl, ◌∙◌, inl, inr, false, ◌&&◌, ◌==◌, [], ◌∷◌, if◌then◌else◌,
  length, length-set, ltb, leb, get_or, set, arith, Bool-cases,
}
use ebotula.CString.{Bytes, codes, strpbrk}
use ebotula.Channel.{ChannelMode}
use ebotula.Command.Settings.{merge_slot, merge_loop, merge_modes, channel_modes}

get_or-set_same : (s : Bytes) (i a : ℕ) → i < length s → get_or (set s i a) i 0 ≡ a
get_or-set_same [] i a h = absurd (omega arith)
get_or-set_same (c ∷ s) zero a h = refl
get_or-set_same (c ∷ s) (suc i) a h = get_or-set_same s i a (omega arith)

get_or-set_other :
    (s : Bytes) (i j a : ℕ) → (i == j) ≡ false → get_or (set s i a) j 0 ≡ get_or s j 0
get_or-set_other [] i j a h = refl
get_or-set_other (c ∷ s) zero zero a h = absurd (ground arith)
get_or-set_other (c ∷ s) zero (suc j) a h = refl
get_or-set_other (c ∷ s) (suc i) zero a h = refl
get_or-set_other (c ∷ s) (suc i) (suc j) a h = get_or-set_other s i j a (ground arith)

-- what the slot is to be: the command's letter under `+`, nothing under `-`
abbrev pub merged : ChannelMode → ChannelMode → ℕ → ℕ
merged new old j =
    if get_or new.mode_str j 0 == b' '
    then get_or old.mode_str j 0
    else if get_or new.mode_str 0 0 == b'+'
    then get_or new.mode_str j 0
    else if get_or new.mode_str 0 0 == b'-'
    then b' '
    else get_or old.mode_str j 0

module _ (new : ChannelMode) where
  length-merge_slot :
      (i : ℕ) (old : ChannelMode) → length (merge_slot new i old).mode_str ≡ length old.mode_str
  unfolding merge_slot
  length-merge_slot i old =
      ground
        (arith, length-set old.mode_str i (get_or new.mode_str i 0), length-set old.mode_str i b' ')

  length-merge_loop :
      (n i : ℕ) (old : ChannelMode) → length (merge_loop new n i old).mode_str ≡ length old.mode_str
  unfolding merge_loop
  length-merge_loop zero i old = refl
  length-merge_loop (suc n) i old =
      length-merge_loop n (suc i) (merge_slot new i old) ∙ length-merge_slot i old

  merge_slot-same :
      (i : ℕ) (old : ChannelMode)
      → i < length old.mode_str
      → get_or (merge_slot new i old).mode_str i 0 ≡ merged new old i
  unfolding merge_slot
  merge_slot-same i old h = ground (
    arith,
    get_or-set_same old.mode_str i (get_or new.mode_str i 0) h,
    get_or-set_same old.mode_str i b' ' h,
  )

  merge_slot-other :
      (i j : ℕ) (old : ChannelMode)
      → (i == j) ≡ false
      → get_or (merge_slot new i old).mode_str j 0 ≡ get_or old.mode_str j 0
  unfolding merge_slot
  merge_slot-other i j old h = ground (
    arith,
    get_or-set_other old.mode_str i j (get_or new.mode_str i 0) h,
    get_or-set_other old.mode_str i j b' ' h,
  )

  merged-same :
      (old other : ChannelMode) (j : ℕ)
      → get_or other.mode_str j 0 ≡ get_or old.mode_str j 0
      → merged new other j ≡ merged new old j
  merged-same old other j e = rw e refl

  merge_loop-slot :
      (n i j : ℕ) (old : ChannelMode)
      → i + n ≤ length old.mode_str
      → get_or (merge_loop new n i old).mode_str j 0
        ≡ (if leb i j && ltb j (i + n) then merged new old j else get_or old.mode_str j 0)
  unfolding merge_loop
  merge_loop-slot zero i j old h = ground arith
  merge_loop-slot (suc n) i j old h =
      let next = merge_slot new i old in
      let behind = merge_loop-slot n (suc i) j next (omega (arith, length-merge_slot i old)) in
      elim (Bool-cases (i == j)) [
        | inl e ↦
            let here : i ≡ j = ground arith in
            let hit = merge_slot-same i old (omega arith) in ground (arith, behind, hit, here)
        | inr e ↦
            let kept = merge_slot-other i j old e in
            let same = merged-same old next j kept in ground (arith, behind, kept, same)
      ]

  -- chanmode, slot by slot, on the twelve slots of a channel: each of the slots from 1 to 10 takes
  -- the letter of the command under `+`, loses it under `-`, and stays when the command does not
  -- name it. The slot 11 of the mode `i` stays whatever the command is, since the loop ends in front
  -- of it. The sign in slot 0 is set exactly when one of the letters kltnmsprqi is on; the mode `a`
  -- alone does not set it.
  pub merge_modes-slots :
      (old : ChannelMode) (j : ℕ)
      → length old.mode_str ≡ 12
      → 0 < j
      → j < 12
      → (get_or (merge_modes new old).mode_str j 0
          ≡ (if j == 11 then get_or old.mode_str j 0 else merged new old j))
        × (get_or (merge_modes new old).mode_str 0 0 ≡ (
            if strpbrk (merge_loop new 10 1 old).mode_str (codes "kltnmsprqi") then b'+' else b' '))
  unfolding merge_modes
  merge_modes-slots old j h n m =
      let before = merge_loop new 10 1 old in
      let sign : ℕ = if strpbrk before.mode_str channel_modes then b'+' else b' ' in
      let slot = merge_loop-slot 10 1 j old (omega arith) in
      let apart : (0 == j) ≡ false = ground arith in
      let kept = get_or-set_other before.mode_str 0 j sign apart in
      let some_slots : 0 < length before.mode_str = omega (arith, length-merge_loop 10 1 old) in
      (ground (arith, slot, kept), get_or-set_same before.mode_str 0 sign some_slots)
