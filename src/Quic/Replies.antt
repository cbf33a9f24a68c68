-- ===== src/Quic/Replies.antt =====
-- The two directions of a flow: `CompareEndpoints`, `MakeCanonicalFlow` and the ids that `Evaluate`
-- keeps, in src/policy/QuicConstrictor.cpp.
use pcap_constrictor_afpacke.Base.{
  ℕ, zero, suc, ◌≤◌, ◌<◌, ◌≡◌, ◌≢◌, refl, sym, ap, ◌∙◌, true, some, [], ◌∷◌, ◌++◌, arith, length,
  take, drop, take-append-drop, min, ltb, if◌then◌else◌, ◌&&◌, find_or, find-insert_self,
}
use pcap_constrictor_afpacke.Bytes.{Bytes}
use pcap_constrictor_afpacke.Config.{QuicOptions}
use pcap_constrictor_afpacke.Decode.{PacketDecodeResult}
use pcap_constrictor_afpacke.Decode.Shape.{IsAddress}
use pcap_constrictor_afpacke.Quic.Flow.{
  Compared, less, equal, greater, compare_bytes, compare_numbers, compare_endpoints, make_endpoint,
  order_flow, make_canonical_flow, learn_scid, match_short, match_known, store_scid,
}
use pcap_constrictor_afpacke.Quic.Parse.{LongHeaderInfo}
use pcap_constrictor_afpacke.Quic.Types.{
  Endpoint, FlowDirection, a_to_b, b_to_a, FlowState, FlowStates, FlowKey, FlowKey-discrete,
  new_flow,
}

abbrev flip : Compared → Compared
flip less = greater
flip equal = equal
flip greater = less

abbrev pub opposite : FlowDirection → FlowDirection
opposite a_to_b = b_to_a
opposite b_to_a = a_to_b

compare_bytes-flip :
    (n : ℕ) (left right : Bytes) (after : Compared)
    → compare_bytes n right left (flip after) ≡ flip (compare_bytes n left right after)
unfolding compare_bytes
compare_bytes-flip zero left right after = refl
compare_bytes-flip (suc n) [] [] after = refl
compare_bytes-flip (suc n) [] (y ∷ right) after = refl
compare_bytes-flip (suc n) (x ∷ left) [] after = refl
compare_bytes-flip (suc n) (x ∷ left) (y ∷ right) after =
    ground (arith, compare_bytes-flip n left right after)

-- Where no byte differs, the comparison is what follows the loop.
compare_bytes-equal :
    (n : ℕ) (left right : Bytes) (after : Compared)
    → n ≤ length left
    → n ≤ length right
    → compare_bytes n left right after ≡ equal
    → (take n left ≡ take n right) × (after ≡ equal)
unfolding compare_bytes
compare_bytes-equal zero left right after l r h = (refl, h)
compare_bytes-equal (suc n) [] right after l r h = absurd (omega arith)
compare_bytes-equal (suc n) (x ∷ left) [] after l r h = absurd (omega arith)
compare_bytes-equal (suc n) (x ∷ left) (y ∷ right) after l r h =
    ground (arith, compare_bytes-equal n left right after)

-- `e` is a packet that goes back between the endpoints of `d`.
pub record IsReply (d e : PacketDecodeResult) : Type 0 where
  pub src_address : e.src_address ≡ d.dst_address
  pub dst_address : e.dst_address ≡ d.src_address
  pub src_port : e.src_port ≡ d.dst_port
  pub dst_port : e.dst_port ≡ d.src_port
  pub address_length : e.address_length ≡ d.address_length
  pub ip_version : e.ip_version ≡ d.ip_version

abbrev pub source : PacketDecodeResult → Endpoint
source d = record { address = d.src_address; address_length = d.address_length; port = d.src_port }

abbrev pub destination : PacketDecodeResult → Endpoint
destination d = record {
  address = d.dst_address;
  address_length = d.address_length;
  port = d.dst_port;
}

-- Addresses that agree in their first bytes are one address.
address_same : (n : ℕ) (a b : Bytes) → IsAddress n a → IsAddress n b → take n a ≡ take n b → a ≡ b
address_same n a b va vb h =
    sym (take-append-drop n a)
    ∙ ap (λ t. t ++ drop n a) h
    ∙ ap (λ t. take n b ++ t) (va.zeros ∙ sym vb.zeros)
    ∙ take-append-drop n b

-- What `CompareEndpoints` does where no byte differs.
abbrev compare_rest : Endpoint → Endpoint → Compared
compare_rest a b =
    compare_numbers a.address_length b.address_length (compare_numbers a.port b.port equal)

compare_rest-flip : (a b : Endpoint) → compare_rest b a ≡ flip (compare_rest a b)
compare_rest-flip a b = ground arith

compare_endpoints-flip : (a b : Endpoint) → compare_endpoints b a ≡ flip (compare_endpoints a b)
unfolding compare_endpoints
compare_endpoints-flip a b =
    let same : min b.address_length a.address_length ≡ min a.address_length b.address_length =
      omega arith in
    ap (λ n. compare_bytes n b.address a.address (compare_rest b a)) same
    ∙ ap (compare_bytes (min a.address_length b.address_length) b.address a.address)
        (compare_rest-flip a b)
    ∙ compare_bytes-flip (min a.address_length b.address_length) a.address b.address
        (compare_rest a b)

compare_endpoints-equal :
    (d : PacketDecodeResult)
    → IsAddress d.address_length d.src_address
    → IsAddress d.address_length d.dst_address
    → d.address_length ≤ 16
    → compare_endpoints (source d) (destination d) ≡ equal
    → source d ≡ destination d
unfolding compare_endpoints
compare_endpoints-equal d vs vd short h =
    let n = d.address_length in
    let same : min n n ≡ n = omega arith in
    let (bytes, rest) =
      compare_bytes-equal n d.src_address d.dst_address (compare_rest (source d) (destination d))
        (omega (arith, vs.size)) (omega (arith, vd.size))
        (ap
            (λ k.
              compare_bytes k d.src_address d.dst_address (compare_rest (source d) (destination d)))
            (sym same)
          ∙ h) in
    let address = address_same n d.src_address d.dst_address vs vd bytes in
    let port : d.src_port ≡ d.dst_port = ground (arith, rest) in
    λ i. record { address = address i; address_length = n; port = port i }

source-reply : (d e : PacketDecodeResult) → IsReply d e → source e ≡ destination d
source-reply d e r = λ i. record {
  address = r.src_address i;
  address_length = r.address_length i;
  port = r.src_port i;
}

destination-reply : (d e : PacketDecodeResult) → IsReply d e → destination e ≡ source d
destination-reply d e r = λ i. record {
  address = r.dst_address i;
  address_length = r.address_length i;
  port = r.dst_port i;
}

-- A packet and one that goes back between its two endpoints, which differ and whose addresses
-- have 16 bytes, zero behind their length of at most 16: MakeCanonicalFlow gives both the same
-- key, and opposite directions.
pub make_canonical_flow-reply :
    (d e : PacketDecodeResult)
    → IsReply d e
    → IsAddress d.address_length d.src_address
    → IsAddress d.address_length d.dst_address
    → d.address_length ≤ 16
    → source d ≢ destination d
    → ((make_canonical_flow e).0 ≡ (make_canonical_flow d).0)
      × ((make_canonical_flow e).1 ≡ opposite (make_canonical_flow d).1)
unfolding make_canonical_flow make_endpoint
make_canonical_flow-reply d e r vs vd short apart =
    by_order (compare_endpoints (source d) (destination d)) (compare_endpoints-equal d vs vd short)
      (ap (λ a. compare_endpoints a (destination e)) (source-reply d e r)
        ∙ ap (compare_endpoints (destination d)) (destination-reply d e r)
        ∙ compare_endpoints-flip (source d) (destination d))
  where
    by_order :
        (c : Compared)
        → (c ≡ equal → source d ≡ destination d)
        → compare_endpoints (source e) (destination e) ≡ flip c
        → ((order_flow
              (compare_endpoints (source e) (destination e))
              e
              (source e)
              (destination e)).0
            ≡ (order_flow c d (source d) (destination d)).0)
          × ((order_flow
                (compare_endpoints (source e) (destination e))
                e
                (source e)
                (destination e)).1
              ≡ opposite (order_flow c d (source d) (destination d)).1)
    by_order equal same h = absurd (apart (same refl))
    by_order less same h = rw h (
      λ i. record {
        ip_version = r.ip_version i;
        endpoint_a = destination-reply d e r i;
        endpoint_b = source-reply d e r i;
      },
      refl,
    )
    by_order greater same h = rw h (
      λ i. record {
        ip_version = r.ip_version i;
        endpoint_a = source-reply d e r i;
        endpoint_b = destination-reply d e r i;
      },
      refl,
    )

learn_scid-found :
    (flow_key : FlowKey) (direction : FlowDirection) (h : LongHeaderInfo) (flows : FlowStates)
    → h.scid.known ≡ true
    → 0 < h.scid.length
    → learn_scid flow_key direction h flows flow_key
      ≡ some (store_scid direction h.scid (find_or new_flow (flows flow_key)))
unfolding learn_scid
learn_scid-found flow_key direction h flows known filled =
    let s : FlowState = find_or new_flow (flows flow_key) in
    let chosen : (if h.scid.known && ltb 0 h.scid.length then store_scid direction h.scid s else s)
        ≡ store_scid direction h.scid s =
      ground (arith, known, filled) in
    find-insert_self FlowKey-discrete flow_key _ flows ∙ ap some chosen

match_short-stored :
    (e : PacketDecodeResult) (config : QuicOptions) (payload : Bytes) (offset : ℕ)
    (h : LongHeaderInfo) (s : FlowState) (direction : FlowDirection)
    → h.scid.known ≡ true
    → match_short e config payload offset
        (some (store_scid direction h.scid s))
        (opposite direction)
      ≡ match_known e config payload offset h.scid
unfolding match_short
match_short-stored e config payload offset h s a_to_b known = ground (arith, known)
match_short-stored e config payload offset h s b_to_a known = ground (arith, known)

-- For a packet and one that goes back between its two endpoints, which differ and whose
-- addresses have 16 bytes, zero behind their length of at most 16: after a long header of the
-- first with a known source id that is not empty, a short header of the second is matched
-- against just that id, whatever the table held before.
pub match_short-learn_scid :
    (d e : PacketDecodeResult) (h : LongHeaderInfo) (flows : FlowStates) (config : QuicOptions)
    (payload : Bytes) (offset : ℕ)
    → IsReply d e
    → IsAddress d.address_length d.src_address
    → IsAddress d.address_length d.dst_address
    → d.address_length ≤ 16
    → source d ≢ destination d
    → h.scid.known ≡ true
    → 0 < h.scid.length
    → let (flow_key, direction) = make_canonical_flow d in
      let (reply_key, reply_direction) = make_canonical_flow e in
      match_short e config payload offset
        (learn_scid flow_key direction h flows reply_key)
        reply_direction
      ≡ match_known e config payload offset h.scid
match_short-learn_scid d e h flows config payload offset r vs vd short apart known filled =
    let (flow_key, direction) = make_canonical_flow d in
    let (same_key, opposite_direction) = make_canonical_flow-reply d e r vs vd short apart in
    let s : FlowState = find_or new_flow (flows flow_key) in
    let stored : FlowState = store_scid direction h.scid s in
    let found : learn_scid flow_key direction h flows (make_canonical_flow e).0 ≡ some stored =
      ap (learn_scid flow_key direction h flows) same_key
      ∙ learn_scid-found flow_key direction h flows known filled in
    ap (λ o. match_short e config payload offset o (make_canonical_flow e).1) found
    ∙ ap (match_short e config payload offset (some stored)) opposite_direction
    ∙ match_short-stored e config payload offset h s direction known
