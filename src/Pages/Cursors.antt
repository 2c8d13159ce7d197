-- ===== src/Pages/Cursors.antt =====
-- A cursor's way to the client and back.
use Prim.Native.String.{String}
use text.Mathlib.Text.{◌==◌ as str_eq}
use kubernetes_cost_analyzer.Common.{
  ◌≡◌, ◌≢◌, ◌||◌, Bool, ok, err, arith, if◌then◌else◌, inl, inr, Result-cases,
}
use kubernetes_cost_analyzer.Clock.{is_zero}
use kubernetes_cost_analyzer.Pages.{Cursor, Codec, incomplete, encode, decode_cursor}

-- What JSON and base64 promise: what was written is read back, and no text is empty.
pub record CodecLaws {E : Type 0} (codec : Codec E) : Type 0 where
  pub read_base64 : (raw : String) → codec.from_base64 (codec.to_base64 raw) ≡ ok raw
  pub read_json :
      (c : Cursor) (raw : String) → codec.marshal c ≡ ok raw → codec.unmarshal raw ≡ ok c
  pub nonempty : (c : Cursor) (raw : String) → codec.marshal c ≡ ok raw → codec.to_base64 raw ≢ ""

-- The two fields that a cursor must have.
abbrev pub is_incomplete : Cursor → Bool
is_incomplete c = is_zero c.window_start || str_eq c.container_name ""

module _ {E : Type 0} (codec : Codec E) (laws : CodecLaws codec) where
  -- Where JSON and base64 read back what they write, a cursor that is encoded is decoded to itself, unless it
  -- has no window or no container: then it is refused as incomplete.
  pub decode_cursor-encode :
      (c : Cursor) (text : String)
      → encode codec c ≡ ok text
      → decode_cursor codec text ≡ (if is_incomplete c then err incomplete else ok c)
  unfolding encode decode_cursor
  decode_cursor-encode c text h = elim (Result-cases (codec.marshal c)) [
    | inl (e, failed) ↦ ground arith
    | inr (raw, made) ↦ ground (arith, laws.read_base64 raw, laws.read_json c raw made)
  ]

  pub encode_nonempty : (c : Cursor) (text : String) → encode codec c ≡ ok text → text ≢ ""
  unfolding encode
  encode_nonempty c text h = elim (Result-cases (codec.marshal c)) [
    | inl (e, failed) ↦ ground arith
    | inr (raw, made) ↦ ground (arith, laws.nonempty c raw made)
  ]
