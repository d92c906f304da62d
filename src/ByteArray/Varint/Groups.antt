-- ===== src/ByteArray/Varint/Groups.antt =====
-- The bytes of a number, and the loop that reads them.
use server_framework.Base.{
  ℕ, zero, suc, ◌+◌, ◌*◌, ◌/◌, ◌%◌, ◌^◌, ◌≤◌, ◌<◌, ◌≡◌, sym, ap, ◌∙◌, bit_and, bit_or, List, [],
  ◌∷◌, ◌++◌, length, ok, ◌>>=◌, >>=-eq-ok, arith, le→leb, leb-false, lt→ltb, ltb-false,
}
use server_framework.Base.Bits.{bit_and_0x7f, bit_or_0x80, bit_or-shifted}
use server_framework.ByteArray.{ByteArray}
use server_framework.ByteArray.Invariant.{IsValid}
use server_framework.ByteArray.Stream.{unread}
use server_framework.ByteArray.Fixed.{read_fuint8}
use server_framework.ByteArray.Fixed.RoundTrip.{read_fuint8-byte}
use server_framework.ByteArray.Varint.{groups, read_loop}
use native.Mathlib.Decide.{dec_le, dec_lt}
use native.Mathlib.Nat.{pow-suc, pow-le-pow_right, div-add-mod, mod-eq_of_lt}
use native.Mathlib.Numerals.{towards_suc}

pub groups-last : (room value : ℕ) → value < 128 → groups (suc room) value ≡ ok (value ∷ [])
unfolding groups
groups-last room value h =
    rw (leb-false 0x80 value h) (ap (λ m. ok (m ∷ [])) {y = value} (omega arith))

pub groups-more :
    (room value : ℕ)
    → 128 ≤ value
    → groups (suc room) value
      ≡ (groups room (value / 128) >>= λ bytes. ok ((value % 128 + 128) ∷ bytes))
unfolding groups
groups-more room value h =
    let byte : bit_or (bit_and value 0x7f) 0x80 % 256 ≡ value % 128 + 128 =
      rw (bit_and_0x7f value, bit_or_0x80 (value % 128) (omega arith)) (omega arith) in
    rw (le→leb 0x80 value h, byte)

-- A number below `128 ^ (room + 1)` is written in at least one and at most `room + 1` groups of
-- seven bits, so an array of that many bytes is not overrun.
pub groups-room :
    (room value : ℕ)
    → value < 128 ^ suc room
    → (bytes : List ℕ) × (groups (suc room) value ≡ ok bytes)
      × (1 ≤ length bytes)
      × (length bytes ≤ suc room)
groups-room zero value h = (value ∷ [], groups-last zero value h, omega arith, omega arith)
groups-room (suc room) value h = elim (dec_lt value 128) [
  | yes last ↦ (value ∷ [], groups-last (suc room) value last, omega arith, omega arith)
  | no more ↦
      let (bytes, run, low, high) =
        groups-room room (value / 128) (omega (arith, pow-suc 128 (suc room))) in
      (
        (value % 128 + 128) ∷ bytes,
        groups-more (suc room) value (omega arith)
            ∙ ap (λ r. r >>= λ bytes. ok ((value % 128 + 128) ∷ bytes)) run,
        omega arith,
        omega arith,
      )
]

read_loop-last :
    (fuel width i result b : ℕ) (s t : ByteArray)
    → i < width
    → read_fuint8 s ≡ ok (b, t)
    → b < 128
    → result < 2 ^ i
    → result + b * 2 ^ i < 2 ^ width
    → read_loop (suc fuel) width i result s ≡ ok (result + b * 2 ^ i, t)
unfolding read_loop
read_loop-last fuel width i result b s t h run small low fits = rw (
  lt→ltb i width h,
  run,
  lt→ltb b 0x80 small,
  mod-eq_of_lt {n = b * 2 ^ i} {m = 2 ^ width} (omega arith),
  bit_or-shifted i result b low,
)

read_loop-more :
    (fuel width i result low_bits : ℕ) (s t : ByteArray)
    → i < width
    → read_fuint8 s ≡ ok (low_bits + 128, t)
    → low_bits < 128
    → result < 2 ^ i
    → result + low_bits * 2 ^ i < 2 ^ width
    → read_loop (suc fuel) width i result s
      ≡ read_loop fuel width (i + 7) (result + low_bits * 2 ^ i) t
unfolding read_loop
read_loop-more fuel width i result b s t h run small low fits =
    let mask : bit_and (b + 128) 0x7f ≡ b = bit_and_0x7f (b + 128) ∙ omega arith in
    rw (
      lt→ltb i width h,
      run,
      ltb-false (b + 128) 0x80 (omega arith),
      mask,
      mod-eq_of_lt {n = b * 2 ^ i} {m = 2 ^ width} (omega arith),
      bit_or-shifted i result b low,
    )

seven_more : (i : ℕ) → 2 ^ (i + 7) ≡ 128 * 2 ^ i
seven_more i = simp towards_suc (omega arith)

-- A number that is not 0 does not begin behind the word's end.
inside_word : (i width high rest : ℕ) → 1 ≤ high → rest + high * 2 ^ i < 2 ^ width → i < width
inside_word i width high rest h fits = elim (dec_le width i) [
  | yes past ↦
      let big = pow-le-pow_right {n = 2} (omega arith) {i = width} {j = i} past in
      absurd (too_big (2 ^ i) high h (omega arith))
  | no inside ↦ omega arith
]
  where
    too_big : (p m : ℕ) → 1 ≤ m → m * p < p → ⊥
    too_big p m k lt = grind arith

-- The value as its lowest group and the rest, from bit `i` on.
split_groups : (value i : ℕ) → value * 2 ^ i ≡ value % 128 * 2 ^ i + value / 128 * 2 ^ (i + 7)
split_groups value i = omega (
  arith,
  ap (λ (t : ℕ). t * 2 ^ i) (div-add-mod value 128),
  ap (λ (t : ℕ). value / 128 * t) (seven_more i),
)

group_fits : (g low p q : ℕ) → low < p → g < 128 → q ≡ 128 * p → low + g * p < q
group_fits g low p q h k e = let le : g * p + p ≤ 128 * p = grind arith in omega arith

-- The loop reads back what the other loop wrote, from bit `i` on, and stops behind it.
pub read_loop-groups :
    (room fuel width i result value : ℕ) (bytes ys : List ℕ) (s : ByteArray)
    → groups room value ≡ ok bytes
    → room ≤ fuel
    → IsValid s
    → unread s ≡ bytes ++ ys
    → i < width
    → result < 2 ^ i
    → result + value * 2 ^ i < 2 ^ width
    → (t : ByteArray) × (read_loop fuel width i result s ≡ ok (result + value * 2 ^ i, t))
      × IsValid t
      × (unread t ≡ ys)
      × (t.position ≡ s.position + length bytes)
read_loop-groups zero fuel width i result value bytes ys s run enough v e h low fits =
    absurd (unfold groups in cc run)
read_loop-groups (suc room) zero width i result value bytes ys s run enough v e h low fits =
    absurd (omega arith)
read_loop-groups (suc room) (suc fuel) width i result value bytes ys s run enough v e h low fits =
    elim (dec_lt value 128) [
      | yes last ↦
          let one : bytes ≡ value ∷ [] = cc (run, groups-last room value last) in
          let (t, took, t-valid, t-unread, t-position) =
            read_fuint8-byte s value ys v (e ∙ ap (λ bs. bs ++ ys) one) in
          (
            t,
            read_loop-last fuel width i result value s t h took last low fits,
            t-valid,
            t-unread,
            omega (arith, ap length one),
          )
      | no more ↦
          let (rest, whole, inner) =
            >>=-eq-ok (groups room (value / 128)) (λ bs. ok ((value % 128 + 128) ∷ bs))
              (sym (groups-more room value (omega arith)) ∙ run) in
          let cons : bytes ≡ (value % 128 + 128) ∷ rest = cc whole in
          let (t, took, t-valid, t-unread, t-position) =
            read_fuint8-byte s (value % 128 + 128) (rest ++ ys) v (e ∙ ap (λ bs. bs ++ ys) cons) in
          let split = split_groups value i in
          let next = result + value % 128 * 2 ^ i in
          let further : i + 7 < width =
            inside_word (i + 7) width (value / 128) next (omega arith) (omega arith) in
          let (u, run', u-valid, u-unread, u-position) =
            read_loop-groups room fuel width (i + 7) next (value / 128) rest ys t inner
              (omega arith) t-valid t-unread further
              (group_fits (value % 128) result (2 ^ i) (2 ^ (i + 7)) low (omega arith)
                (seven_more i))
              (omega arith) in
          (
            u,
            rw
                (
                  read_loop-more fuel width i result (value % 128) s t h took (omega arith) low
                      (omega arith),
                  run',
                )
                (ap (λ m. ok (m, u)) {y = result + value * 2 ^ i} (omega arith)),
            u-valid,
            u-unread,
            omega (arith, ap length cons),
          )
    ]
