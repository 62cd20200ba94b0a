-- ===== src/Esim/Profile/Bounds.antt =====
-- The arrays in which a request is built are large enough.
use esp32c3_sms_gateway.Prelude.{
  ℕ, ◌+◌, ◌^◌, ◌≤◌, ◌<◌, ◌≡◌, refl, arith, Bool, true, false, List, [], ◌++◌, length, length-append,
}
use esp32c3_sms_gateway.Esim.Tlv.{append_tlv, append_tag, append_length, tag_bytes, length_bytes}
use esp32c3_sms_gateway.Esim.Profile.{refresh_tlv, Request, standard_request, nested_request}

length-append_tlv :
    (out value : List ℕ) (tag : ℕ)
    → length (append_tlv out tag value)
      ≡ length out + length (tag_bytes tag) + length (length_bytes (length value)) + length value
unfolding append_tlv append_tag append_length
length-append_tlv out value tag = simp length-append (omega arith)

length-tag_bytes_le : (tag : ℕ) → tag < 2 ^ 16 → length (tag_bytes tag) ≤ 2
unfolding tag_bytes
length-tag_bytes_le tag h = ground arith

length_bytes_short : (n : ℕ) → n < 128 → length (length_bytes n) ≡ 1
unfolding length_bytes
length_bytes_short n h = ground arith

abbrev pub FitsRequest : ℕ → ℕ → Request → Type 0
FitsRequest a0_size joined_size r =
    (length r.a0_tlv ≤ a0_size) × (length r.joined ≤ joined_size) × (length r.req ≤ 64)

length-refresh_tlv : (refresh : Bool) → length (refresh_tlv refresh) ≡ 3
unfolding refresh_tlv append_tlv append_tag append_length tag_bytes length_bytes
length-refresh_tlv true = refl
length-refresh_tlv false = refl

one_byte_tag : length (tag_bytes 0xa0) ≡ 1
unfolding tag_bytes
one_byte_tag = refl

length-container :
    (value : List ℕ) → length value < 128 → length (append_tlv [] 0xa0 value) ≡ 2 + length value
length-container value h =
    omega
      (arith, length-append_tlv [] value 0xa0, one_byte_tag, length_bytes_short (length value) h)

length-request :
    (tag : ℕ) (value : List ℕ)
    → tag < 2 ^ 16
    → length value < 128
    → length (append_tlv [] tag value) ≤ 3 + length value
length-request tag value small h = omega (
  arith,
  length-append_tlv [] value tag,
  length-tag_bytes_le tag small,
  length_bytes_short (length value) h,
)

-- With an identifier of at most 24 bytes and an outer tag of at most two bytes, both forms of a
-- request stay inside the arrays of `send_profile_apdu_flavor`: 32 and 40 bytes for the parts of
-- the standard form, 45 and 40 for those of the nested one, and 64 for the request.
pub requests-FitsRequest :
    (outer_tag : ℕ) (id_tlv : List ℕ) (refresh : Bool)
    → outer_tag < 2 ^ 16
    → length id_tlv ≤ 24
    → FitsRequest 32 40 (standard_request outer_tag id_tlv refresh)
      × FitsRequest 45 40 (nested_request outer_tag id_tlv refresh)
unfolding standard_request nested_request
requests-FitsRequest outer_tag id_tlv refresh small fits =
    let a0 = append_tlv [] 0xa0 id_tlv in
    let inner = id_tlv ++ refresh_tlv refresh in
    let nested = append_tlv [] 0xa0 inner in
    let refreshed = length-refresh_tlv refresh in
    let payload_len = length-append a0 (refresh_tlv refresh) in
    let inner_len = length-append id_tlv (refresh_tlv refresh) in
    let a0_len : length a0 ≡ 2 + length id_tlv = length-container id_tlv (omega (arith, fits)) in
    let nested_len : length nested ≡ 2 + length inner =
      length-container inner (omega (arith, inner_len, refreshed)) in
    let standard_len : length (append_tlv [] outer_tag (a0 ++ refresh_tlv refresh))
        ≤ 3 + length (a0 ++ refresh_tlv refresh) =
      length-request outer_tag (a0 ++ refresh_tlv refresh) small
        (omega (arith, payload_len, a0_len, refreshed)) in
    let lpac_len : length (append_tlv [] outer_tag nested) ≤ 3 + length nested =
      length-request outer_tag nested small (omega (arith, nested_len, inner_len, refreshed)) in
    (
      (
        omega (arith, a0_len),
        omega (arith, payload_len, a0_len, refreshed),
        omega (arith, standard_len, payload_len, a0_len, refreshed),
      ),
      (
        omega (arith, nested_len, inner_len, refreshed),
        omega (arith, inner_len, refreshed),
        omega (arith, lpac_len, nested_len, inner_len, refreshed),
      ),
    )
