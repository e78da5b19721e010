-- ===== src/Address.antt =====
-- Addresses of devices and channels: `get_split_channel_address`, `get_channel_address`,
-- `get_device_address` and `get_channel_no` of hahomematic/support.py. `none` stands for the
-- ValueError of the unpacking or of `int`.
use hahomematic.Base.{
  ◌≡◌, refl, ap, ℕ, false, Option, none, some, List, [], ◌∷◌, ◌++◌, ◌==◌, list_eq, nat_eq,
  list_beq_iff, Bool-cases, inl, inr, all, if◌then◌else◌,
}
use hahomematic.Base.Text.{
  Text, codes, split, has_char, split_none, split_cons, has_char_mid, is_digit,
}
use hahomematic.Base.Double.{ℤ, pos}
use hahomematic.Base.Number.{int_of, show, show_int}
use hahomematic.Base.Number.Decimal.{show-is_digit, has_char-digits, int_of-show}

abbrev pub colon : ℕ
colon = b':'

unfoldable pub channel_part : Text → Text → Option (Text × Option ℤ)
channel_part device_address channel_no =
    if channel_no == codes "None"
    then some (device_address, none)
    else elim (int_of channel_no) [ none ↦ none | some n ↦ some (device_address, some n) ]

unfoldable pub unpack : List Text → Option (Text × Option ℤ)
unpack (device_address ∷ channel_no ∷ []) = channel_part device_address channel_no
unpack _ = none

unfoldable pub get_split_channel_address : Text → Option (Text × Option ℤ)
get_split_channel_address channel_address =
    if has_char colon channel_address
    then unpack (split colon channel_address)
    else some (channel_address, none)

unfoldable pub get_device_address : Text → Option Text
get_device_address address = elim (get_split_channel_address address) [
  | none ↦ none
  | some (device, _) ↦ some device
]

unfoldable pub get_channel_no : Text → Option (Option ℤ)
get_channel_no address = elim (get_split_channel_address address) [
  | none ↦ none
  | some (_, channel_no) ↦ some channel_no
]

unfoldable pub get_channel_address : Text → Option ℤ → Text
get_channel_address device_address none = device_address
get_channel_address device_address (some n) = device_address ++ colon ∷ show_int n

show-ne-None : (n : ℕ) → (show n == codes "None") ≡ false
unfolding all is_digit
show-ne-None n = elim (Bool-cases (show n == codes "None")) [
  | inl same ↦
      cc (show-is_digit n, ap (all is_digit) ((list_beq_iff (show n) (codes "None")).0 same))
  | inr other ↦ other
]

channel_part-show :
    (device : Text) (n : ℕ) → channel_part device (show n) ≡ some (device, some (pos n))
unfolding channel_part
channel_part-show device n = rw (show-ne-None n) (rw (int_of-show n))

-- The address that is built for a device and a channel number is taken apart into the two; a device
-- address holds no colon.
pub split-get_channel_address :
    (device : Text) (n : ℕ)
    → has_char colon device ≡ false
    → get_split_channel_address (get_channel_address device (some (pos n)))
      ≡ some (device, some (pos n))
unfolding get_split_channel_address get_channel_address unpack show_int is_digit
split-get_channel_address device n plain = rw (has_char_mid colon device (show n)) (
    rw (
      split_cons colon device (show n) plain,
      split_none colon (show n) (has_char-digits colon (show n) refl (show-is_digit n)),
      channel_part-show device n,
    ))

-- An address without a channel number is its own device address.
pub split-device_address :
    (device : Text)
    → has_char colon device ≡ false
    → get_split_channel_address (get_channel_address device none) ≡ some (device, none)
unfolding get_split_channel_address get_channel_address
split-device_address device plain = rw plain
