-- ===== src/Drm/Decrypter.antt =====
-- The state of `Mp4Decrypter` (src/drm/cenc.rs), and the form of its methods.
use mediaflow_proxy_light.Base.{
  ◌≡◌, ap, ℕ, ◌+◌, ◌/◌, ◌%◌, ◌^◌, ◌++◌, Bool, List, [], ◌∷◌, Option, none, ◌==◌, Bytes, to_be_bytes,
  take, drop, Outcome, done, panic, stuck,
}
use mediaflow_proxy_light.Mp4.{Atom, pack}
use mediaflow_proxy_light.Drm.Sample.{SampleInfo, EncScheme, cenc}

pub record TrackInfo : Type 0 where
  -- an `i32`, as its 32 bits
  pub data_offset : ℕ
  pub sample_sizes : List ℕ
  pub sample_info : List SampleInfo
  pub key : Option Bytes
  pub default_sample_size : ℕ
  pub crypt_byte_block : ℕ
  pub skip_byte_block : ℕ
  pub constant_iv : Option Bytes

pub record TrackSettings : Type 0 where
  pub crypt_byte_block : ℕ
  pub skip_byte_block : ℕ
  pub constant_iv : Option Bytes
  pub iv_size : ℕ

pub record Mp4Decrypter : Type 0 where
  pub key_map : List (Bytes × Bytes)
  pub encryption_scheme : EncScheme
  pub default_iv_size : ℕ
  pub crypt_byte_block : ℕ
  pub skip_byte_block : ℕ
  pub constant_iv : Option Bytes
  pub default_sample_size : ℕ
  pub trun_sample_sizes : List ℕ
  pub current_sample_info : List SampleInfo
  pub total_encryption_overhead : ℕ
  pub track_infos : List TrackInfo
  pub track_encryption_settings : List (ℕ × TrackSettings)
  pub extracted_kids : List (ℕ × Bytes)
  pub current_track_id : ℕ

-- `Mp4Decrypter::new`
abbrev pub new_decrypter : List (Bytes × Bytes) → Mp4Decrypter
new_decrypter keys = record {
  key_map = keys;
  encryption_scheme = cenc;
  default_iv_size = 8;
  crypt_byte_block = 1;
  skip_byte_block = 9;
  constant_iv = none;
  default_sample_size = 0;
  trun_sample_sizes = [];
  current_sample_info = [];
  total_encryption_overhead = 0;
  track_infos = [];
  track_encryption_settings = [];
  extracted_kids = [];
  current_track_id = 0;
}

-- A method with `&mut self`: it panics, or it returns a value and the new state.
abbrev pub Method : Type 0 → Type 0
Method A = Mp4Decrypter → Outcome (A × Mp4Decrypter)

infixl 5 ◌>>=◌ ◌>>◌
abbrev pub ◌>>=◌ : {A B : Type 0} → Method A → (A → Method B) → Method B
◌>>=◌ m f s = elim (m s) [ done (a, t) ↦ f a t | panic ↦ panic | stuck ↦ stuck ]

abbrev pub ◌>>◌ : {B : Type 0} → Method (Unit {0}) → Method B → Method B
m >> k = m >>= λ _. k

abbrev pub pure : {A : Type 0} → A → Method A
pure a s = done (a, s)

abbrev pub lift : {A : Type 0} → Outcome A → Method A
lift o s = elim o [ done a ↦ done (a, s) | panic ↦ panic | stuck ↦ stuck ]

abbrev pub modify : (Mp4Decrypter → Mp4Decrypter) → Method (Unit {0})
modify f s = done (tt, f s)

abbrev pub get : Method Mp4Decrypter
get s = done (s, s)

pub >>=-done :
    {A B : Type 0} (m : Method A) (f : A → Method B) (s : Mp4Decrypter) (a : A) (t : Mp4Decrypter)
    → m s ≡ done (a, t)
    → (m >>= f) s ≡ f a t
>>=-done m f s a t e = ap (λ o. elim o [ done (a, t) ↦ f a t | panic ↦ panic | stuck ↦ stuck ]) e

-- `flags & (1 << bit) != 0`
abbrev pub has_flag : ℕ → ℕ → Bool
has_flag flags bit = flags / 2 ^ bit % 2 == 1

-- `data[pos..pos + 4].copy_from_slice(&v.to_be_bytes())`, where a test has shown that it fits.
abbrev pub put_be_32 : Bytes → ℕ → ℕ → Bytes
put_be_32 d pos v = take pos d ++ (to_be_bytes 4 v ++ drop (pos + 4) d)

-- `new_data.extend_from_slice(..)` for each atom in turn.
unfoldable pub extend_each {ℓ} : {A : Type ℓ} → (A → Method Bytes) → List A → Method Bytes
extend_each f [] = pure []
extend_each f (a ∷ rest) = do x ← f a; y ← extend_each f rest; pure (x ++ y)

-- `&self.process(child).pack()`
unfoldable pub repack : (Atom → Method Atom) → Atom → Method Bytes
repack process child = process child >>= λ processed. pure (pack processed)
