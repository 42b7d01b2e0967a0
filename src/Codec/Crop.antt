-- ===== src/Codec/Crop.antt =====
-- What `CropRect::sanitized` gives, for any rectangle from the wire.
use reachmydevice.Prelude.{true, not, ◌&&◌, ◌||◌, ◌≡◌, inl, inr, Bool-cases, arith}
use reachmydevice.Codec.{Doubles, CropRect, full, clamp, sanitized}

module _ {A : Type 0} (d : Doubles A) where
  clamp_within :
      (v lo hi : A)
      → d.le v v ≡ true
      → d.le lo hi ≡ true
      → (d.le lo (clamp d v lo hi) ≡ true) × (d.le (clamp d v lo hi) hi ≡ true)
  unfolding clamp
  clamp_within v lo hi n o =
      let left = d.le_refl_left lo hi o in
      let right = d.le_refl_right lo hi o in
      let low = d.le_of_not_lt v lo n left in
      let high = d.le_of_not_lt hi v right n in
      (ground (arith, low, high), ground (arith, low, high))

  ordered : d.le d.zero d.one ≡ true
  ordered = d.lt_le d.zero d.one d.zero_lt_one

  clamp_ordered : (v lo hi : A) → d.le (clamp d v lo hi) (clamp d v lo hi) ≡ true → d.le v v ≡ true
  unfolding clamp
  clamp_ordered v lo hi h =
      let below : d.lt v lo ≡ true → d.le v v ≡ true = λ e. d.le_refl_left v lo (d.lt_le v lo e) in
      let above : d.lt hi v ≡ true → d.le v v ≡ true = λ e. d.le_refl_right hi v (d.lt_le hi v e) in
      ground (arith, below, above)

  clamp-clamp :
      (v lo hi : A) → d.le lo hi ≡ true → clamp d (clamp d v lo hi) lo hi ≡ clamp d v lo hi
  unfolding clamp
  clamp-clamp v lo hi o =
      let low = d.not_lt_of_le lo lo (d.le_refl_left lo hi o) in
      let high = d.not_lt_of_le hi hi (d.le_refl_right lo hi o) in
      let between = d.not_lt_of_le lo hi o in ground (arith, low, high, between)

  clamp_one : clamp d d.one d.zero d.one ≡ d.one
  unfolding clamp
  clamp_one =
      let high = d.not_lt_of_le d.one d.one (d.le_refl_right d.zero d.one ordered) in
      let between = d.not_lt_of_le d.zero d.one ordered in ground (arith, high, between)

  -- A side that is positive after clamping is at most 1.
  side_small :
      (w : A)
      → d.lt d.zero (clamp d w d.zero d.one) ≡ true
      → d.le (clamp d w d.zero d.one) d.one ≡ true
  side_small w p =
      let side : A = clamp d w d.zero d.one in
      let number : d.le w w ≡ true =
        clamp_ordered w d.zero d.one (d.le_refl_right d.zero side (d.lt_le d.zero side p)) in
      (clamp_within w d.zero d.one number ordered).1

  -- Making a rectangle safe twice is making it safe once, for any rectangle, one with NaNs included. The
  -- comparisons are those of IEEE 754.
  pub sanitized-sanitized : (r : CropRect A) → sanitized d (sanitized d r) ≡ sanitized d r
  unfolding sanitized full
  sanitized-sanitized r =
      let w : A = clamp d r.w d.zero d.one in
      let h : A = clamp d r.h d.zero d.one in
      let ww = clamp-clamp r.w d.zero d.one ordered in
      let hh = clamp-clamp r.h d.zero d.one ordered in
      let xx : d.le w d.one ≡ true
          → clamp d (clamp d r.x d.zero (d.sub d.one w)) d.zero (d.sub d.one w)
            ≡ clamp d r.x d.zero (d.sub d.one w) =
        λ e. clamp-clamp r.x d.zero (d.sub d.one w) (d.zero_le_sub w e) in
      let yy : d.le h d.one ≡ true
          → clamp d (clamp d r.y d.zero (d.sub d.one h)) d.zero (d.sub d.one h)
            ≡ clamp d r.y d.zero (d.sub d.one h) =
        λ e. clamp-clamp r.y d.zero (d.sub d.one h) (d.zero_le_sub h e) in
      let one_one : d.le d.one d.one ≡ true = d.le_refl_right d.zero d.one ordered in
      elim (Bool-cases (d.lt d.zero w && d.lt d.zero h)) [
        | inl p ↦ elim (Bool-cases (d.le d.one w && d.le d.one h)) [
          | inl f ↦ ground (arith, p, f, clamp_one, one_one, d.zero_lt_one)
          | inr f ↦ ground (
            arith,
            p,
            f,
            ww,
            hh,
            xx (side_small r.w (ground arith)),
            yy (side_small r.h (ground arith)),
          )
        ]
        | inr p ↦ ground (arith, p, clamp_one, one_one, d.zero_lt_one)
      ]

  -- A side that is positive after clamping lies in (0, 1], and a numeric corner lets it end on the screen.
  side_within :
      (x w : A)
      → d.le x x ≡ true
      → d.lt d.zero (clamp d w d.zero d.one) ≡ true
      → let side = clamp d w d.zero d.one in
        let corner = clamp d x d.zero (d.sub d.one side) in
        (d.le side d.one ≡ true)
        × (d.le d.zero corner ≡ true)
        × (d.le corner (d.sub d.one side) ≡ true)
  side_within x w n p =
      let side : A = clamp d w d.zero d.one in
      let small = side_small w p in
      let (low, high) = clamp_within x d.zero (d.sub d.one side) n (d.zero_le_sub side small) in
      (small, low, high)

  -- A rectangle whose corner is made of numbers is on the screen once it was made safe: both sides are
  -- positive and at most 1, and the corner is neither negative nor so large that a side ends beyond 1. The
  -- sides from the wire may be NaNs. The comparisons are those of IEEE 754.
  pub sanitized-OnScreen :
      (r : CropRect A)
      → d.le r.x r.x ≡ true
      → d.le r.y r.y ≡ true
      → let s = sanitized d r in
        ((d.lt d.zero s.w ≡ true)
          × (d.le s.w d.one ≡ true)
          × (d.le d.zero s.x ≡ true)
          × (d.le s.x (d.sub d.one s.w) ≡ true))
        × (d.lt d.zero s.h ≡ true)
        × (d.le s.h d.one ≡ true)
        × (d.le d.zero s.y ≡ true)
        × (d.le s.y (d.sub d.one s.h) ≡ true)
  unfolding sanitized full
  sanitized-OnScreen r nx ny =
      let w : A = clamp d r.w d.zero d.one in
      let h : A = clamp d r.h d.zero d.one in
      let one_one : d.le d.one d.one ≡ true = d.le_refl_right d.zero d.one ordered in
      let zero_zero : d.le d.zero d.zero ≡ true = d.le_refl_left d.zero d.one ordered in
      let rest = d.zero_le_sub d.one one_one in
      elim (Bool-cases (not (d.lt d.zero w && d.lt d.zero h) || (d.le d.one w && d.le d.one h))) [
        | inl f ↦
            rw f
              ((d.zero_lt_one, one_one, zero_zero, rest), d.zero_lt_one, one_one, zero_zero, rest)
        | inr f ↦
            let pw : d.lt d.zero w ≡ true = ground arith in
            let ph : d.lt d.zero h ≡ true = ground arith in
            let (w1, x0, x1) = side_within r.x r.w nx pw in
            let (h1, y0, y1) = side_within r.y r.h ny ph in rw f ((pw, w1, x0, x1), ph, h1, y0, y1)
      ]
