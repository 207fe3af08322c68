-- ===== src/VendorBoot/Written.antt =====
-- tools/repack_vendor_boot.py writes the parts of an image, and the fields of an entry of its table, in
-- ascending order: what is written stays.
use device_xiaomi_dash_twrp.Prelude.{
  ℕ, ◌+◌, ◌^◌, ◌≤◌, ◌<◌, ◌≡◌, refl, sym, ap, subst, ◌∙◌, some, List, [], ◌∷◌, length,
  length-replicate, replicate, take_all, arith, lt→ltb, le→leb,
}
use device_xiaomi_dash_twrp.Memory.Bytes.{le_bytes, of_le, length-le_bytes, of_le-le_bytes}
use device_xiaomi_dash_twrp.VendorBoot.{bytes_at, put, u32_at, blank, pack_into, table_entry}
use device_xiaomi_dash_twrp.VendorBoot.Slices.{length-put, put_here, put_below, put_above}

pub record Write : Type 0 where
  pub at : ℕ
  pub size : ℕ
  pub content : List ℕ

abbrev pub writes : List ℕ → List Write → List ℕ
writes d [] = d
writes d (w ∷ ws) = writes (put d (w.at) (w.size) (w.content)) ws

-- Each write has the length of its slice, starts where the one before ended or later, and ends within
-- `room` bytes.
abbrev pub Ascending : (top room : ℕ) → List Write → Type 0
Ascending top room [] = Unit {0}
Ascending top room (w ∷ ws) =
    (length w.content ≡ w.size)
    × (top ≤ w.at)
    × (w.at + w.size ≤ room)
    × Ascending (w.at + w.size) room ws

abbrev pub Held : List ℕ → List Write → Type 0
Held d [] = Unit {0}
Held d (w ∷ ws) = (bytes_at d (w.at) (w.size) ≡ w.content) × Held d ws

pub length-put_sized :
    (d : List ℕ) (o n : ℕ) (x : List ℕ)
    → length x ≡ n
    → o + n ≤ length d
    → length (put d o n x) ≡ length d
length-put_sized d o n x e h =
    subst (λ k. length (put d o k x) ≡ length d) e (length-put d o x (omega (arith, e)))

put_before :
    (d : List ℕ) (o n : ℕ) (x : List ℕ) (p m : ℕ)
    → length x ≡ n
    → p + m ≤ o
    → o + n ≤ length d
    → bytes_at (put d o n x) p m ≡ bytes_at d p m
put_before d o n x p m e h h' =
    subst (λ k. bytes_at (put d o k x) p m ≡ bytes_at d p m) e
      (put_below d o x p m h (omega (arith, e)))

pub put_behind :
    (d : List ℕ) (o n : ℕ) (x : List ℕ) (p m : ℕ)
    → length x ≡ n
    → o + n ≤ p
    → o + n ≤ length d
    → bytes_at (put d o n x) p m ≡ bytes_at d p m
put_behind d o n x p m e h h' =
    subst (λ k. bytes_at (put d o k x) p m ≡ bytes_at d p m) e
      (put_above d o x p m (omega (arith, e)) (omega (arith, e)))

pub put_inside :
    (d : List ℕ) (n : ℕ) (x : List ℕ) (i m : ℕ)
    → length x ≡ n
    → i + m ≤ n
    → n ≤ length d
    → bytes_at (put d 0 n x) i m ≡ bytes_at x i m
put_inside d n x i m e h h' =
    subst (λ k. bytes_at (put d 0 k x) i m ≡ bytes_at x i m) e
      (put_here d 0 x i m i (omega (arith, e)) (omega (arith, e)) (omega arith))

pub put_whole :
    (d : List ℕ) (o n : ℕ) (x : List ℕ)
    → length x ≡ n
    → o + n ≤ length d
    → bytes_at (put d o n x) o n ≡ x
put_whole d o n x e h =
    subst (λ k. bytes_at (put d o k x) o k ≡ x) e
      (put_here d o x 0 (length x) o (omega arith) (omega (arith, e)) (omega arith) ∙ take_all x)

pub length-writes :
    (d : List ℕ) (ws : List Write) (top : ℕ)
    → Ascending top (length d) ws
    → length (writes d ws) ≡ length d
length-writes d [] top h = refl
length-writes d (w ∷ ws) top (len, from, fits, more) =
    let same = length-put_sized d (w.at) (w.size) (w.content) len fits in
    length-writes (put d (w.at) (w.size) (w.content)) ws (w.at + w.size)
      (subst (λ k. Ascending (w.at + w.size) k ws) (sym same) more)
    ∙ same

pub writes_below :
    (d : List ℕ) (ws : List Write) (top p m : ℕ)
    → p + m ≤ top
    → Ascending top (length d) ws
    → bytes_at (writes d ws) p m ≡ bytes_at d p m
writes_below d [] top p m h a = refl
writes_below d (w ∷ ws) top p m h (len, from, fits, more) =
    let same = length-put_sized d (w.at) (w.size) (w.content) len fits in
    writes_below (put d (w.at) (w.size) (w.content)) ws (w.at + w.size) p m (omega arith)
      (subst (λ k. Ascending (w.at + w.size) k ws) (sym same) more)
    ∙ put_before d (w.at) (w.size) (w.content) p m len (omega arith) fits

pub writes-Held :
    (d : List ℕ) (ws : List Write) (top : ℕ) → Ascending top (length d) ws → Held (writes d ws) ws
writes-Held d [] top a = tt
writes-Held d (w ∷ ws) top (len, from, fits, more) =
    let d1 = put d (w.at) (w.size) (w.content) in
    let same = length-put_sized d (w.at) (w.size) (w.content) len fits in
    let rest = subst (λ k. Ascending (w.at + w.size) k ws) (sym same) more in
    (
      writes_below d1 ws (w.at + w.size) (w.at) (w.size) (omega arith) rest
          ∙ put_whole d (w.at) (w.size) (w.content) len fits,
      writes-Held d1 ws (w.at + w.size) rest,
    )

pub length-blank : (n : ℕ) → length (blank n) ≡ n
unfolding blank
length-blank n = length-replicate n 0

pub pack_into_lem :
    (d : List ℕ) (o v : ℕ)
    → o + 4 ≤ length d
    → v < 2 ^ 32
    → pack_into d o v ≡ some (put d o 4 (le_bytes 4 v))
unfolding pack_into
pack_into_lem d o v h small = rw (le→leb (o + 4) (length d) h, lt→ltb v (2 ^ 32) small)

abbrev pub IsEntry : List ℕ → (entry_size size offset kind : ℕ) → Type 0
IsEntry e es size offset kind =
    (length e ≡ es)
    × (u32_at e 0 ≡ size)
    × (u32_at e 4 ≡ offset)
    × (u32_at e 8 ≡ kind)
    × (bytes_at e 12 32 ≡ replicate 32 0)

abbrev entry_writes : (size offset kind : ℕ) → List Write
entry_writes size offset kind =
    record { at = 0; size = 4; content = le_bytes 4 size }
    ∷ record { at = 4; size = 4; content = le_bytes 4 offset }
    ∷ record { at = 8; size = 4; content = le_bytes 4 kind }
    ∷ record { at = 12; size = 32; content = replicate 32 0 }
    ∷ []

entry_ascends :
    (es size offset kind : ℕ)
    → 44 ≤ es
    → Ascending 0 (length (blank es)) (entry_writes size offset kind)
entry_ascends es size offset kind h =
    let room = length-blank es in
    (
      length-le_bytes 4 size,
      omega arith,
      omega (arith, room),
      (
        length-le_bytes 4 offset,
        omega arith,
        omega (arith, room),
        (
          length-le_bytes 4 kind,
          omega arith,
          omega (arith, room),
          (refl, omega arith, omega (arith, room), tt),
        ),
      ),
    )

table_entry_run :
    (es size offset kind : ℕ)
    → 44 ≤ es
    → size < 2 ^ 32
    → offset < 2 ^ 32
    → kind < 2 ^ 32
    → table_entry es size offset kind ≡ some (writes (blank es) (entry_writes size offset kind))
unfolding table_entry
table_entry_run es size offset kind h s o k =
    let d0 = blank es in
    let d1 = put d0 0 4 (le_bytes 4 size) in
    let d2 = put d1 4 4 (le_bytes 4 offset) in
    let l0 = length-blank es in
    let l1 =
      length-put_sized d0 0 4 (le_bytes 4 size) (length-le_bytes 4 size) (omega (arith, l0)) in
    let l2 =
      length-put_sized d1 4 4 (le_bytes 4 offset) (length-le_bytes 4 offset)
        (omega (arith, l0, l1)) in
    rw (
      table_entry,
      pack_into_lem d0 0 size (omega (arith, l0)) s,
      pack_into_lem d1 4 offset (omega (arith, l0, l1)) o,
      pack_into_lem d2 8 kind (omega (arith, l0, l1, l2)) k,
    )

pub table_entry_lem :
    (es size offset kind : ℕ)
    → 44 ≤ es
    → size < 2 ^ 32
    → offset < 2 ^ 32
    → kind < 2 ^ 32
    → (e : List ℕ) × (table_entry es size offset kind ≡ some e) × IsEntry e es size offset kind
table_entry_lem es size offset kind h s o k =
    let ws = entry_writes size offset kind in
    let asc = entry_ascends es size offset kind h in
    let (w0, (w1, (w2, (w3, _)))) = writes-Held (blank es) ws 0 asc in
    (
      writes (blank es) ws,
      table_entry_run es size offset kind h s o k,
      (
        length-writes (blank es) ws 0 asc ∙ length-blank es,
        ap of_le w0 ∙ of_le-le_bytes 4 size s,
        ap of_le w1 ∙ of_le-le_bytes 4 offset o,
        ap of_le w2 ∙ of_le-le_bytes 4 kind k,
        w3,
      ),
    )
