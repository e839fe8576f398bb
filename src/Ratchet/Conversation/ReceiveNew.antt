-- ===== src/Ratchet/Conversation/ReceiveNew.antt =====
-- The follower of a conversation over src/ratchet.rs leads once it has entered the leader's chain.
use trino_core.Prelude.{
  ℕ, ◌≤◌, ◌≡◌, refl, sym, ap, ◌∙◌, Bytes, List, ◌∷◌, length, All, bytes_eq, bytes_eq_iff, false,
  true, some, inl, arith, contains,
}
use trino_core.Primitives.{Primitives, Rng, HexLaws, HkdfLaws, CurveLaws}
use trino_core.Identity.Keys.{KeyPair, generate_x25519}
use trino_core.Identity.Keys.Laws.{IsX25519, generate_x25519-IsX25519}
use trino_core.Ratchet.State.{RatchetState}
use trino_core.Ratchet.State.Laws.{IsKey}
use trino_core.Ratchet.Session.{is_key}
use trino_core.Ratchet.Session.AnyOrder.{chain_key, chain_key_first}
use trino_core.Ratchet.Session.Turn.{contains-retired_after}
use trino_core.Ratchet.Conversation.{Sent, Takes, IsFresh}
use trino_core.Ratchet.Conversation.View.{Differ, IsHeld}
use trino_core.Ratchet.Conversation.Lead.{
  IsClean, Heads, first_chain, next_chain, Tails, silent, answering, Leads, IsLed,
}
use trino_core.Ratchet.Conversation.Flight.{
  All-map, All-map-both, Takes-length, Takes-All, Takes-AreApart,
}
use trino_core.Ratchet.Conversation.ReceiveFrame.{contains-used, used-contains, contains-own}
use trino_core.Ratchet.Conversation.ReceiveHeld.{IsClean-used}
use trino_core.Ratchet.Conversation.NewChain.{Turns}

differ_used :
    (k d : Bytes) (used : List Bytes)
    → contains d used ≡ true
    → contains k used ≡ false
    → bytes_eq d k ≡ false
differ_used k d used there away =
    ground (arith, bytes_eq_iff d k, λ (e : d ≡ k). ap (λ x. contains x used) e)

module _ (p : Primitives) (ad : Bytes) (hkdf : HkdfLaws p) (hex : HexLaws p)
    (curve : CurveLaws p) where
  -- A public key is 32 bytes.
  pub IsX25519-IsKey : (kp : KeyPair) → IsX25519 p kp → IsKey kp.pub_bytes
  IsX25519-IsKey kp own =
      rw own (curve.public-AreBytes kp.priv_bytes, curve.length-public kp.priv_bytes)

  module _ (leader follower : RatchetState) (to_follower to_leader : List Sent) (used : List Bytes)
      (r : Rng) (e : Sent) (rest : List Sent) (room : ℕ) (IsWaiting : Sent → Type 0)
      (h : IsLed p ad hkdf leader follower to_follower to_leader used)
      (fresh : IsFresh p r leader.dhs.pub_bytes used)
      (turned : Turns p ad hkdf hex curve leader h.start follower r e room IsWaiting) where
    turned-Leads : Leads p ad hkdf turned.state leader turned.answering.chain_key
    turned-Leads =
        let a = turned.answering in
        let own = (generate_x25519 p r).0 in
        let pair = generate_x25519-IsX25519 p curve r in
        record {
          own = rw a.own_key pair;
          theirs = h.leads.own;
          live = rw a.own_key fresh.live;
          agreed = rw a.own_key (a.agreed fresh.live);
          sends = record {
            key =
                a.sending
                ∙ ap some (sym (chain_key_first p hkdf 0 a.chain_key))
                ∙ ap (λ n. some (chain_key p hkdf 0 a.chain_key n)) (sym a.number);
            number = refl;
            own = refl;
          };
          small = omega (arith, a.number);
          peer = a.peer;
          new = rw a.own_key (h.clean.1 own.pub_bytes (IsX25519-IsKey own pair) fresh.unused);
          store = h.leads.leader_store;
          leader_store = turned.sees.receives.tracks.store;
        }

    turned-Heads :
        Tails p ad hkdf follower leader to_leader
        → Heads p ad hkdf turned.state leader turned.answering.chain_key to_leader
    turned-Heads (silent mute deaf empty none_yet unbanked) =
        first_chain none_yet (rw empty tt) (omega (arith, unbanked, turned.answering.number))
    turned-Heads (answering v sees sends held count) =
        next_chain v sees (sym (turned.previous ∙ sends.number))
          (All-map _ _ to_leader (λ x k. inl k) held)
          (omega (arith, count, turned.answering.number))

    turned-Tails :
        Takes e to_follower rest
        → All IsWaiting to_follower
        → room ≤ length to_follower
        → Tails p ad hkdf leader turned.state rest
    turned-Tails taken waiting fits =
        let differ = Takes-AreApart p ad taken h.apart.0 in
        answering turned.view turned.sees
          (rw (turned.began, turned.peer, turned.total) h.leads.sends)
          (All-map-both (Differ p ad e) IsWaiting (IsHeld p ad hkdf turned.view turned.state) rest
            turned.others differ.0 (Takes-All IsWaiting taken waiting).1)
          (omega (arith, turned.fewer, Takes-length taken))

    turned-IsClean : IsClean p (turned.state.dhs.pub_bytes ∷ used) turned.state
    turned-IsClean k kk unused =
        let d = leader.dhs.pub_bytes in
        let away = contains-used k turned.state.dhs.pub_bytes used unused in
        let differ = differ_used k d used h.counted.0 away in
        let before = h.clean.0 k kk away in
        record {
          unseen = ap (λ x. is_key x k) turned.answering.peer ∙ differ;
          unretired =
              ap (contains k) turned.retired
              ∙ contains-retired_after k d follower.dhr follower.retired_peer_dh_keys before.unseen
                  before.unretired;
          unbanked = λ n. turned.unbanked k n kk before differ;
        }

    pub turned-IsLed :
        Takes e to_follower rest
        → All IsWaiting to_follower
        → room ≤ length to_follower
        → IsLed p ad hkdf turned.state leader to_leader rest (turned.state.dhs.pub_bytes ∷ used)
    turned-IsLed taken waiting fits =
        let own = turned.state.dhs.pub_bytes in
        record {
          start = turned.answering.chain_key;
          leads = turned-Leads;
          heads = turned-Heads h.tails;
          tails = turned-Tails taken waiting fits;
          apart = (h.apart.1, (Takes-AreApart p ad taken h.apart.0).1);
          clean = (IsClean-used p ad hkdf used own leader h.clean.1, turned-IsClean);
          counted =
              (contains-own own used, used-contains leader.dhs.pub_bytes own used h.counted.0);
          bounded = (h.bounded.1, omega (arith, Takes-length taken, h.bounded.0));
        }
