-- ===== src/Quic/Types.antt =====
-- The data types of QuicConstrictor.hpp.
use pcap_constrictor_afpacke.Base.{ℕ, Bool, false, replicate, KeyMap, insert, ℕ_discrete}
use pcap_constrictor_afpacke.Bytes.{Bytes}
use pcap_constrictor_afpacke.Decode.{IpVersion}

pub data QuicConstrictDisposition : Type 0 where
  not_applicable long_header short_header_matched unknown_cid_fallback : QuicConstrictDisposition
  dcid_mismatch_fallback malformed_fallback : QuicConstrictDisposition

pub record QuicConstrictResult : Type 0 where
  pub disposition : QuicConstrictDisposition
  pub output_len : ℕ

abbrev pub max_connection_id_length : ℕ
max_connection_id_length = 20

-- `bytes` is an array of 20 bytes, of which `length` are the id.
pub record ConnectionId : Type 0 where
  pub bytes : Bytes
  pub length : ℕ
  pub known : Bool

abbrev pub unknown_id : ConnectionId
unknown_id = record { bytes = replicate 20 0; length = 0; known = false }

pub record Endpoint : Type 0 where
  pub address : Bytes
  pub address_length : ℕ
  pub port : ℕ

pub record FlowKey : Type 0 where
  pub ip_version : IpVersion
  pub endpoint_a : Endpoint
  pub endpoint_b : Endpoint

unfoldable pub FlowKey-discrete : Discrete FlowKey
unfolding ℕ_discrete
FlowKey-discrete = hlevel ℕ_discrete

pub data FlowDirection : Type 0 where
  a_to_b b_to_a : FlowDirection

pub record FlowState : Type 0 where
  pub endpoint_a_scid : ConnectionId
  pub endpoint_b_scid : ConnectionId

abbrev pub new_flow : FlowState
new_flow = record { endpoint_a_scid = unknown_id; endpoint_b_scid = unknown_id }

-- `flow_states_`
abbrev pub FlowStates : Type 0
FlowStates = KeyMap FlowKey FlowState

abbrev pub put_flow : FlowKey → FlowState → FlowStates → FlowStates
put_flow = insert FlowKey-discrete
