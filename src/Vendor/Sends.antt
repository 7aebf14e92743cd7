-- ===== src/Vendor/Sends.antt =====
-- The frames under `from_vendor` of the profiles that the loader of
-- crates/ssiec-sv-publisher/src/vendor_loader.rs returns.
use svdc.Base.{
  ℕ, ◌≤◌, ◌≡◌, Option, List, length, replicate, take, ◌++◌, length-append, length-take, Gives,
  Gives-weaken, arith, All,
}
use svdc.Scd.Xml.{Node}
use svdc.Wire.Frame.{AsduFields, IsAsduFields, IsFrameParams, max_frame_bytes}
use svdc.Wire.Utf8.{IsAscii}
use svdc.Wire.Encode.{encode_frame}
use svdc.Wire.RoundTrip.{Arrives, encode_frame-max_frame_bytes}
use svdc.Vendor.{VendorProfile, source_mac, from_vendor}
use svdc.Vendor.Icd.{LoadedProfile, load_from_icd_str}
use svdc.Vendor.Valid.{IsProfile, load_from_icd_str-IsLoaded}

pub from_vendor-IsFrameParams :
    (p : VendorProfile) (suffix : List ℕ)
    → IsProfile p
    → length suffix ≡ 3
    → IsFrameParams (from_vendor p suffix)
unfolding from_vendor source_mac
from_vendor-IsFrameParams p suffix v h = (v.six, source_six p.mac_oui suffix v.oui h, v.appid)
  where
    source_six :
        (xs ys : List ℕ) → length xs ≡ 3 → length ys ≡ 3 → length (take 3 xs ++ take 3 ys) ≡ 6
    source_six xs ys p q = grind (arith, length-append {A = ℕ}, length-take {A = ℕ})

-- a profile in range, of which a frame with the fields `a` arrives
pub record Sends (suffix : List ℕ) (a : AsduFields) (p : VendorProfile) : Type 0 where
  pub valid : IsProfile p
  pub sent :
      Arrives
        (from_vendor p suffix)
        a
        (encode_frame (from_vendor p suffix) a (replicate max_frame_bytes 0))

profile-Sends :
    (p : VendorProfile) (suffix : List ℕ) (a : AsduFields)
    → IsProfile p
    → length suffix ≡ 3
    → IsAsduFields a
    → All IsAscii a.sv_id
    → length a.sv_id ≤ 191
    → Sends suffix a p
profile-Sends p suffix a v six fields ascii short = record {
  valid = v;
  sent =
      encode_frame-max_frame_bytes (from_vendor p suffix) a
        (record {
          params = from_vendor-IsFrameParams p suffix v six;
          fields = fields;
          ascii = ascii;
          short = omega arith;
        })
        short;
}

abbrev pub LoadsSender : List ℕ → AsduFields → LoadedProfile → Type 0
LoadsSender suffix a l = Sends suffix a l.profile

-- From a base profile in range, the loader never panics: it fails, or returns a profile with an address
-- of six bytes, an APPID of 16 bits, a rate and a revision of 32 bits and a tag whose priority and
-- identifier fit their bits. For field values in range, a suffix of three bytes and an ASCII identifier
-- of at most 191 bytes, the frame under `from_vendor` of that profile decodes to the same fields.
pub load_from_icd_str-Sends :
    (document : Option Node) (base : VendorProfile) (suffix : List ℕ) (a : AsduFields)
    → IsProfile base
    → length suffix ≡ 3
    → IsAsduFields a
    → All IsAscii a.sv_id
    → length a.sv_id ≤ 191
    → Gives (LoadsSender suffix a) (load_from_icd_str document base)
load_from_icd_str-Sends document base suffix a v six fields ascii short =
    Gives-weaken (load_from_icd_str-IsLoaded document base v)
      (λ l w. profile-Sends l.profile suffix a w six fields ascii short)
