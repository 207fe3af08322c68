-- ===== src/AdbdProps/Standing.antt =====
-- parse_newc of tools/patch_recovery_adbd_props.py against an archive as its bytes hold it.
use device_xiaomi_dash_twrp.Prelude.{
  ℕ, zero, suc, ◌+◌, ◌==◌, ◌≡◌, ◌≢◌, ◌≤◌, ◌<◌, ◌↔◌, refl, sym, ap, subst, ◌∙◌, inl, inr, true,
  false, Option, List, [], ◌∷◌, ◌++◌, length, drop, ltb, lt→ltb, ltb→lt, arith, Bool-cases,
}
use mathlib.Core.List.{append-nil, append_assoc}
use device_xiaomi_dash_twrp.Memory.Bytes.{same_bytes, same_bytes_lem, same_bytes_refl}
use device_xiaomi_dash_twrp.AdbdProps.{trailer}
use device_xiaomi_dash_twrp.AdbdProps.Newc.{
  done, guard, ◌>>=◌, Signed, plus, minus, Entry, aligned, is_zero, any_byte, behind_trailer, close,
  parse_loop, parse_newc,
}
use device_xiaomi_dash_twrp.AdbdProps.Described.{
  IsAligned, aligned-IsAligned, IsAligned-aligned, HasNumber, IsEntry, IsEntry-behind,
  entry_at_sound, entry_at_complete, entry_at-size,
}
use device_xiaomi_dash_twrp.AdbdProps.Settled.{
  IsSettled, bind-IsSettled, guard-IsSettled, IsNonNegative, entry_at-IsSettled,
}
use device_xiaomi_dash_twrp.AdbdProps.Parse.{Trace, ended, went_on, parse_newc-Trace}

-- The sizes of the entries are not negative.
abbrev pub AreNonNegative : List Entry → Type 0
AreNonNegative [] = Unit {0}
AreNonNegative (e ∷ entries) = IsNonNegative e.header.size × AreNonNegative entries

abbrev AreZeros : List ℕ → Type 0
AreZeros [] = Unit {0}
AreZeros (b ∷ bs) = (b ≡ 0) × AreZeros bs

any_byte_sound : (bs : List ℕ) → any_byte bs ≡ false → AreZeros bs
unfolding any_byte
any_byte_sound [] h = tt
any_byte_sound (b ∷ bs) h = elim (Bool-cases (b == 0)) [
  | inl z ↦ (ground arith, any_byte_sound bs (rw z at h))
  | inr other ↦ cc (rw other at h)
]

any_byte_complete : (bs : List ℕ) → AreZeros bs → any_byte bs ≡ false
unfolding any_byte
any_byte_complete [] zeros = refl
any_byte_complete (b ∷ bs) (z, zeros) = rw (z, any_byte_complete bs zeros) refl

is_zero_sound : (s : Signed) → is_zero s ≡ true → s ≡ plus 0
is_zero_sound (plus n) h = ap plus (ground arith)
is_zero_sound (minus n) h = cc

is_zero-IsNonNegative : (s : Signed) → IsNonNegative s → (n : ℕ) × (s ≡ plus n)
is_zero-IsNonNegative (plus n) h = (n, refl)
is_zero-IsNonNegative (minus n) h = absurd h

module _ (int_16 : List ℕ → Option Signed) (decode : List ℕ → Option (List ℕ)) where
  -- From this offset the bytes of the archive have these entries, each at the first multiple of 4 behind
  -- the data in front of it, then a trailer without data, then zeros.
  pub data Archive (blob : List ℕ) : ℕ → List Entry → Type 0 where
    trailer_at :
        (offset : ℕ) (e : Entry) (next : ℕ)
        → IsEntry int_16 decode blob offset e
        → e.path ≡ trailer
        → e.header.size ≡ plus 0
        → IsAligned next e.data_end
        → AreZeros (drop next blob)
        → Archive blob offset []
    then_entry :
        (offset : ℕ) (e : Entry) (next : ℕ) (entries : List Entry)
        → IsEntry int_16 decode blob offset e
        → e.path ≢ trailer
        → IsAligned next e.data_end
        → Archive blob next entries
        → Archive blob offset (e ∷ entries)

  Trace-Archive :
      (blob : List ℕ) (offset : ℕ) (entries : List Entry)
      → Trace int_16 decode blob offset entries
      → AreNonNegative entries
      → Archive blob offset entries
  Trace-Archive blob offset [] (ended _ e read last no_data quiet) signs =
      let empty = is_zero_sound e.header.size no_data in
      trailer_at offset e (aligned e.data_end)
        (entry_at_sound int_16 decode blob offset e 0 read empty)
        (same_bytes_lem e.path trailer last) empty (aligned-IsAligned e.data_end)
        (any_byte_sound (drop (aligned e.data_end) blob) quiet)
  Trace-Archive blob offset (e ∷ entries) (went_on _ _ _ read other rest) (sign, signs) =
      let (n, sized) = is_zero-IsNonNegative e.header.size sign in
      then_entry offset e (aligned e.data_end) entries
        (entry_at_sound int_16 decode blob offset e n read sized)
        (λ same. cc (rw (same, same_bytes_refl trailer) at other)) (aligned-IsAligned e.data_end)
        (Trace-Archive blob (aligned e.data_end) entries rest signs)

  Archive-AreNonNegative :
      (blob : List ℕ) (offset : ℕ) (entries : List Entry)
      → Archive blob offset entries
      → AreNonNegative entries
  Archive-AreNonNegative blob offset [] archive = tt
  Archive-AreNonNegative blob offset (e ∷ entries)
        (then_entry _ _ next _ (_, _, _, _, _, (n, sized, _), _) other at rest) =
      (subst IsNonNegative (sym sized) tt, Archive-AreNonNegative blob next entries rest)

  pub differ : (path : List ℕ) → path ≢ trailer → same_bytes path trailer ≡ false
  differ path other = elim (Bool-cases (same_bytes path trailer)) [
    | inl same ↦ absurd (other (same_bytes_lem path trailer same))
    | inr apart ↦ apart
  ]

  further :
      (o a b next fuel end : ℕ)
      → o + 110 < a
      → a ≤ b
      → b ≤ next
      → end < suc fuel + o
      → end < fuel + next
  further o a b next fuel end begins behind ahead enough = omega arith

  pub starts_behind :
      (blob : List ℕ) (o : ℕ) (e : Entry) → IsEntry int_16 decode blob o e → o + 110 < e.data_start
  starts_behind blob o e (_, _, _, _, (k, _, _, _, _, (_, low, _)), _, _) = omega arith

  pub starts_inside :
      (blob : List ℕ) (o : ℕ) (e : Entry) → IsEntry int_16 decode blob o e → o < length blob
  starts_inside blob o e (_, fits, _, _, _, _, _) = omega arith

  loop_complete :
      (fuel : ℕ) (blob : List ℕ) (offset : ℕ) (entries more : List Entry)
      → length blob < fuel + offset
      → Archive blob offset more
      → parse_loop int_16 decode fuel blob offset entries ≡ done (entries ++ more)
  unfolding parse_loop close behind_trailer ◌>>=◌ guard
  loop_complete zero blob offset entries [] enough (trailer_at _ e next there last sized at quiet) =
      let within = starts_inside blob offset e there in absurd (omega arith)
  loop_complete zero blob offset entries (e ∷ more) enough
        (then_entry _ _ next _ there other at rest) =
      let within = starts_inside blob offset e there in absurd (omega arith)
  loop_complete (suc fuel) blob offset entries [] enough
        (trailer_at _ e next there last sized at quiet) =
      let inside = lt→ltb offset (length blob) (starts_inside blob offset e there) in
      let read = entry_at_complete int_16 decode blob offset e there in
      let named = ap (λ p. same_bytes p trailer) last ∙ same_bytes_refl trailer in
      let goes = IsAligned-aligned next e.data_end at in
      rw
        (
          inside,
          read,
          named,
          ap is_zero sized,
          goes,
          any_byte_complete (drop next blob) quiet,
          append-nil entries,
        )
        refl
  loop_complete (suc fuel) blob offset entries (e ∷ more) enough
        (then_entry _ _ next _ there other at rest) =
      let inside = lt→ltb offset (length blob) (starts_inside blob offset e there) in
      let read = entry_at_complete int_16 decode blob offset e there in
      let goes = IsAligned-aligned next e.data_end at in
      let (_, ahead, _) = at in
      let on =
        further offset e.data_start e.data_end next fuel (length blob)
          (starts_behind blob offset e there) (IsEntry-behind int_16 decode blob offset e there)
          ahead enough in
      rw (inside, read, differ e.path other, goes)
        (loop_complete fuel blob next (entries ++ (e ∷ [])) more on rest
          ∙ ap done (append_assoc entries (e ∷ []) more))

  -- parse_newc returns entries of which none has a negative size exactly when the bytes of the archive
  -- have these entries one behind the other in front of a trailer without data, with nothing but zeros
  -- behind it.
  pub parse_newc_lem :
      (blob : List ℕ) (entries : List Entry)
      → ((parse_newc int_16 decode blob ≡ done entries) × AreNonNegative entries)
        ↔ Archive blob 0 entries
  unfolding parse_newc
  parse_newc_lem blob entries = (
    (λ (given, signs).
        Trace-Archive blob 0 entries (parse_newc-Trace int_16 decode blob entries given) signs),
    (λ archive. (
      loop_complete (suc (length blob)) blob 0 [] entries (omega arith) archive,
      Archive-AreNonNegative blob 0 entries archive,
    )),
  )

  -- The offsets at which the loop looks for an entry: 0, and the first multiple of 4 behind an entry
  -- that stands at such an offset and is no trailer.
  pub data Reached (blob : List ℕ) : ℕ → Type 0 where
    first : Reached blob 0
    next_one :
        (offset : ℕ) (e : Entry) (next : ℕ)
        → Reached blob offset
        → IsEntry int_16 decode blob offset e
        → e.path ≢ trailer
        → IsAligned next e.data_end
        → Reached blob next

  -- No header at such an offset has a negative size.
  abbrev pub HasNoNegativeSize : List ℕ → Type 0
  HasNoNegativeSize blob =
      (offset k : ℕ) → Reached blob offset → ¬ HasNumber int_16 decode blob (offset + 54) (minus k)

  sign_of :
      (blob : List ℕ) (offset : ℕ) (s : Signed)
      → ((k : ℕ) → ¬ HasNumber int_16 decode blob offset (minus k))
      → HasNumber int_16 decode blob offset s
      → (n : ℕ) × (s ≡ plus n)
  sign_of blob offset (plus n) none_below h = (n, refl)
  sign_of blob offset (minus k) none_below h = absurd (none_below k h)

  loop-IsSettled :
      (fuel : ℕ) (blob : List ℕ) (offset : ℕ) (entries : List Entry)
      → HasNoNegativeSize blob
      → Reached blob offset
      → length blob < fuel + offset
      → 0 < fuel
      → IsSettled (parse_loop int_16 decode fuel blob offset entries)
  unfolding parse_loop close behind_trailer
  loop-IsSettled zero blob offset entries none_below here enough some_fuel = absurd (omega arith)
  loop-IsSettled (suc fuel) blob offset entries none_below here enough some_fuel =
      let sized : (k : ℕ) → ¬ HasNumber int_16 decode blob (offset + 54) (minus k) =
        λ k. none_below offset k here in
      elim (Bool-cases (ltb offset (length blob))) [
        | inr past ↦ rw past tt
        | inl within ↦ rw within (
            bind-IsSettled _ _ (entry_at-IsSettled int_16 decode blob offset sized) (λ e read.
              elim (Bool-cases (same_bytes e.path trailer)) [
                | inl last ↦ rw last (guard-IsSettled _ _ _ (λ _. guard-IsSettled _ _ _ (λ _. tt)))
                | inr other ↦
                    let (n, size) =
                      sign_of blob (offset + 54) e.header.size sized
                        (entry_at-size int_16 decode blob offset e read) in
                    let there = entry_at_sound int_16 decode blob offset e n read size in
                    let begins = starts_behind blob offset e there in
                    let behind = IsEntry-behind int_16 decode blob offset e there in
                    let (_, ahead, _) = aligned-IsAligned e.data_end in
                    let inside = ltb→lt offset (length blob) within in
                    let on =
                      next_one offset e (aligned e.data_end) here there
                        (λ same. cc (rw (same, same_bytes_refl trailer) at other))
                        (aligned-IsAligned e.data_end) in
                    rw other (
                      loop-IsSettled fuel blob (aligned e.data_end) (entries ++ (e ∷ [])) none_below
                        on
                        (further offset e.data_start e.data_end (aligned e.data_end) fuel
                          (length blob) begins behind ahead enough)
                        (omega (arith, enough, inside)))
              ]))
      ]

  -- When no header that the loop comes to has a negative size, parse_newc comes to an end: it returns
  -- entries or raises an error.
  pub parse_newc_settles :
      (blob : List ℕ) → HasNoNegativeSize blob → IsSettled (parse_newc int_16 decode blob)
  unfolding parse_newc
  parse_newc_settles blob none_below =
      loop-IsSettled (suc (length blob)) blob 0 [] none_below first (omega arith) (omega arith)
