-- ===== src/CallSignal/Validity.antt =====
-- Which call signals pass the check of src/call_signal.rs.
use trino_core.Prelude.{
  ◌≤◌, ◌<◌, ◌≡◌, ◌↔◌, ◌⊎◌, inl, inr, refl, Option, none, some, ok, true, false, ◌||◌, [], ◌∷◌,
  Bytes, codes, All, length, bytes_eq, bytes_eq_iff, take, arith, Option-cases, Bool-cases,
}
use trino_core.CallSignal.{
  CallSignal, IceCandidate, SignalParser, max_call_signal_bytes, max_sdp_bytes, max_candidate_bytes,
  is_some, is_id_byte, all_id_bytes, is_long, starts_with, validate_description, validate_ice,
  validate_end, validate_kind, validate_signal, validate_call_signal,
}

abbrev IsShort : Option Bytes → Type 0
IsShort none = Unit
IsShort (some value) = length value ≤ 256

-- An offer or an answer: a session description, and no candidate.
pub record IsDescription (s : CallSignal) : Type 0 where
  pub kind : (s.kind ≡ codes "offer") ⊎ (s.kind ≡ codes "answer")
  pub text : Bytes
  pub sdp : s.sdp ≡ some text
  pub fits : (0 < length text) × (length text ≤ max_sdp_bytes)
  pub version : take 3 text ≡ codes "v=0"
  pub alone : s.candidate ≡ none

-- A candidate, and no session description.
pub record IsIce (s : CallSignal) : Type 0 where
  pub kind : s.kind ≡ codes "ice"
  pub alone : s.sdp ≡ none
  pub ice : IceCandidate
  pub candidate : s.candidate ≡ some ice
  pub fits : (0 < length ice.candidate) × (length ice.candidate ≤ max_candidate_bytes)
  pub short : IsShort ice.sdp_mid × IsShort ice.username_fragment

-- The end of a call, which carries nothing else.
pub record IsEnd (s : CallSignal) : Type 0 where
  pub kind : (s.kind ≡ codes "bye") ⊎ (s.kind ≡ codes "reject")
  pub bare : (s.sdp ≡ none) × (s.candidate ≡ none) × (s.video ≡ none) × (s.renegotiate ≡ none)

pub record IsSignal (s : CallSignal) : Type 0 where
  pub id :
      (16 ≤ length s.call_id) × (length s.call_id ≤ 64) × All (λ b. is_id_byte b ≡ true) s.call_id
  pub form : IsDescription s ⊎ IsIce s ⊎ IsEnd s

all_id_bytes_iff : (b : Bytes) → (all_id_bytes b ≡ true) ↔ All (λ b. is_id_byte b ≡ true) b
unfolding all_id_bytes
all_id_bytes_iff [] = (λ h. tt, λ h. refl)
all_id_bytes_iff (b ∷ bs) =
    let (f, g) = all_id_bytes_iff bs in
    (λ h. (ground arith, f (ground arith)), λ h. let rest = g h.1 in ground (arith, h.0, rest))

none_of : {A : Type 0} (x : Option A) → is_some x ≡ false → x ≡ none
none_of none h = refl
none_of (some a) h = absurd (ground arith)

IsShort-is_long : (x : Option Bytes) → is_long x ≡ false → IsShort x
IsShort-is_long none h = tt
IsShort-is_long (some v) h = ground arith

is_long-IsShort : (x : Option Bytes) → IsShort x → is_long x ≡ false
is_long-IsShort none h = refl
is_long-IsShort (some v) h = ground arith

-- One of two texts.
either_of : (k a b : Bytes) → (bytes_eq k a || bytes_eq k b) ≡ true → (k ≡ a) ⊎ (k ≡ b)
either_of k a b h = elim (Bool-cases (bytes_eq k a)) [
  | inl e ↦ inl ((bytes_eq_iff k a).0 e)
  | inr d ↦ inr (ground (arith, bytes_eq_iff k b))
]

module _ (s : CallSignal) where
  validate_description-IsDescription :
      (bytes_eq s.kind (codes "offer") || bytes_eq s.kind (codes "answer")) ≡ true
      → validate_description s ≡ ok tt
      → IsDescription s
  unfolding validate_description starts_with
  validate_description-IsDescription k h = elim (Option-cases s.sdp) [
    | inl missing ↦ absurd (ground arith)
    | inr (text, e) ↦ record {
      kind = either_of s.kind (codes "offer") (codes "answer") k;
      text = text;
      sdp = e;
      fits = ground arith;
      version = (bytes_eq_iff (take 3 text) (codes "v=0")).0 (ground arith);
      alone = none_of s.candidate (ground arith);
    }
  ]

  validate_ice-IsIce : bytes_eq s.kind (codes "ice") ≡ true → validate_ice s ≡ ok tt → IsIce s
  unfolding validate_ice
  validate_ice-IsIce k h = elim (Option-cases s.candidate) [
    | inl missing ↦ absurd (ground arith)
    | inr (ice, e) ↦ record {
      kind = (bytes_eq_iff s.kind (codes "ice")).0 k;
      alone = none_of s.sdp (ground arith);
      ice = ice;
      candidate = e;
      fits = ground arith;
      short = (
        IsShort-is_long ice.sdp_mid (ground arith),
        IsShort-is_long ice.username_fragment (ground arith),
      );
    }
  ]

  validate_end-IsEnd :
      (bytes_eq s.kind (codes "bye") || bytes_eq s.kind (codes "reject")) ≡ true
      → validate_end s ≡ ok tt
      → IsEnd s
  unfolding validate_end
  validate_end-IsEnd k h = record {
    kind = either_of s.kind (codes "bye") (codes "reject") k;
    bare = (
      none_of s.sdp (ground arith),
      none_of s.candidate (ground arith),
      none_of s.video (ground arith),
      none_of s.renegotiate (ground arith),
    );
  }

  kind_sound : validate_kind s ≡ ok tt → IsDescription s ⊎ IsIce s ⊎ IsEnd s
  unfolding validate_kind
  kind_sound h =
      elim (Bool-cases (bytes_eq s.kind (codes "offer") || bytes_eq s.kind (codes "answer"))) [
        | inl opens ↦ inl (validate_description-IsDescription opens (ground arith))
        | inr not_open ↦ elim (Bool-cases (bytes_eq s.kind (codes "ice"))) [
          | inl ice ↦ inr (inl (validate_ice-IsIce ice (ground arith)))
          | inr not_ice ↦
              elim (Bool-cases
                (bytes_eq s.kind (codes "bye") || bytes_eq s.kind (codes "reject"))) [
                  | inl ends ↦ inr (inr (validate_end-IsEnd ends (ground arith)))
                  | inr other ↦ absurd (ground arith)
                ]
        ]
      ]

  description_complete : IsDescription s → validate_kind s ≡ ok tt
  unfolding validate_kind validate_description starts_with
  description_complete d =
      let version = (bytes_eq_iff (take 3 d.text) (codes "v=0")).1 d.version in
      elim d.kind [
        | inl e ↦
            ground
              (arith, d.sdp, d.fits, version, d.alone, (bytes_eq_iff s.kind (codes "offer")).1 e)
        | inr e ↦
            ground
              (arith, d.sdp, d.fits, version, d.alone, (bytes_eq_iff s.kind (codes "answer")).1 e)
      ]

  ice_complete : IsIce s → validate_kind s ≡ ok tt
  unfolding validate_kind validate_ice bytes_eq
  ice_complete i =
      let mid = is_long-IsShort i.ice.sdp_mid i.short.0 in
      let fragment = is_long-IsShort i.ice.username_fragment i.short.1 in
      rw i.kind (ground (arith, i.alone, i.candidate, i.fits, mid, fragment))

  end_complete : IsEnd s → validate_kind s ≡ ok tt
  unfolding validate_kind validate_end bytes_eq
  end_complete d = elim d.kind [
    | inl e ↦ rw e (ground (arith, d.bare))
    | inr e ↦ rw e (ground (arith, d.bare))
  ]

  validate_signal_iff : (validate_signal s ≡ ok tt) ↔ IsSignal s
  unfolding validate_signal
  validate_signal_iff = (
    λ h. record {
      id = (ground arith, ground arith, (all_id_bytes_iff s.call_id).0 (ground arith));
      form = kind_sound (ground arith);
    },
    λ v.
        let bytes = (all_id_bytes_iff s.call_id).1 v.id.2 in
        let form : validate_kind s ≡ ok tt = elim v.form [
          | inl d ↦ description_complete d
          | inr (inl i) ↦ ice_complete i
          | inr (inr e) ↦ end_complete e
        ] in
        ground (arith, v.id.0, v.id.1, bytes, form),
  )

-- A payload passes exactly if it is not empty nor longer than 64 KiB and parses to a signal
-- whose id has 16 to 64 letters, digits, `_` and `-`, and which is a session description without
-- a candidate, a candidate without a description, or an end without anything else, each within
-- its limits.
pub validate_call_signal_iff :
    (parse : SignalParser) (payload : Bytes)
    → (validate_call_signal parse payload ≡ ok tt) ↔ (
        (0 < length payload)
        × (length payload ≤ max_call_signal_bytes)
        × (s : CallSignal) × (parse payload ≡ some s)
        × IsSignal s)
unfolding validate_call_signal
validate_call_signal_iff parse payload = (
  λ h. elim (Option-cases (parse payload)) [
    | inl malformed ↦ absurd (ground arith)
    | inr (s, e) ↦ (ground arith, ground arith, s, e, (validate_signal_iff s).0 (ground arith))
  ],
  λ x.
      let (nonempty, fits, s, e, v) = x in
      let valid = (validate_signal_iff s).1 v in ground (arith, nonempty, fits, e, valid),
)
