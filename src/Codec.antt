-- ===== src/Codec.antt =====
-- crates/codec/src/scale.rs, `CropRect`: the part of the screen that a zoomed viewer sees. The doubles are
-- a type with the operations and comparisons that the code uses.
pub mod Crop
use reachmydevice.Prelude.{Bool, true, false, not, ◌&&◌, ◌||◌, if◌then◌else◌, ◌≡◌}

-- `f64`. A NaN is a value that is not at most itself; the laws are those of IEEE 754.
pub record Doubles (A : Type 0) : Type 0 where
  pub zero : A
  pub one : A
  pub lt : A → A → Bool
  pub le : A → A → Bool
  pub add : A → A → A
  pub sub : A → A → A
  pub mul : A → A → A
  pub le_of_not_lt : (a b : A) → le a a ≡ true → le b b ≡ true → lt a b ≡ false → le b a ≡ true
  pub not_lt_of_le : (a b : A) → le a b ≡ true → lt b a ≡ false
  pub lt_le : (a b : A) → lt a b ≡ true → le a b ≡ true
  pub le_refl_left : (a b : A) → le a b ≡ true → le a a ≡ true
  pub le_refl_right : (a b : A) → le a b ≡ true → le b b ≡ true
  pub zero_lt_one : lt zero one ≡ true
  pub zero_le_sub : (a : A) → le a one ≡ true → le zero (sub one a) ≡ true

pub record CropRect (A : Type 0) : Type 0 where
  pub x : A
  pub y : A
  pub w : A
  pub h : A

module _ {A : Type 0} (d : Doubles A) where
  unfoldable pub full : CropRect A
  full = record { x = d.zero; y = d.zero; w = d.one; h = d.one }

  -- `f64::clamp`, for bounds in order.
  unfoldable pub clamp : A → A → A → A
  clamp v lo hi = if d.lt v lo then lo else if d.lt hi v then hi else v

  unfoldable pub sanitized : CropRect A → CropRect A
  sanitized r =
      let w = clamp r.w d.zero d.one in
      let h = clamp r.h d.zero d.one in
      if not (d.lt d.zero w && d.lt d.zero h) || (d.le d.one w && d.le d.one h)
      then full
      else record {
        x = clamp r.x d.zero (d.sub d.one w);
        y = clamp r.y d.zero (d.sub d.one h);
        w = w;
        h = h;
      }

  unfoldable pub is_full : CropRect A → Bool
  is_full r = d.le d.one r.w && d.le d.one r.h
