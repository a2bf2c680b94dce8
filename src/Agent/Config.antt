-- ===== src/Agent/Config.antt =====
-- lancet/inc/lancet/agent.h and lancet/inc/lancet/tp_proto.h: the configuration, and the table of
-- main loops that a transport protocol has.
use kata_load_test.Base.{ℕ, ◌-◌, ◌^◌, Option, none, some, List, [], wrap16}
use kata_load_test.Base.Int.{ℤ, pos, negsuc}
use kata_load_test.Stats.State.{
  AgentType, throughput_agent, latency_agent, symmetric_nic_timestamp_agent, symmetric_agent,
  agent_nr,
}
use kata_load_test.Rand.Gen.{RandGen}
use kata_load_test.AppProto.Init.{ApplicationProtocol}

-- An int as a uint16_t.
abbrev pub to_uint16 : ℤ → ℕ
to_uint16 (pos n) = wrap16 n
to_uint16 (negsuc n) = 2 ^ 16 - 1 - wrap16 n

-- `ip` is in network order, as inet_pton writes it.
pub record HostTuple : Type 0 where
  pub ip : ℕ
  pub port : ℕ

-- The length of `targets` in `struct agent_config`.
abbrev pub max_targets : ℕ
max_targets = 4096

pub data TransportProtocolType : Type 0 where
  tcp r2p2 : TransportProtocolType

-- The functions of lancet/agents/tp_tcp.c that an agent thread can run.
pub data TpMain : Type 0 where
  throughput_tcp_main latency_tcp_main symmetric_nic_tcp_main symmetric_tcp_main : TpMain

-- `tp_main`: an entry for each agent type in front of `agent_nr`.
pub record TransportProtocol : Type 0 where
  pub tp_main : AgentType → Option TpMain

abbrev pub init_tcp : TransportProtocol
init_tcp = record { tp_main = main_of }
  where
    main_of : AgentType → Option TpMain
    main_of throughput_agent = some throughput_tcp_main
    main_of latency_agent = some latency_tcp_main
    main_of symmetric_nic_timestamp_agent = some symmetric_nic_tcp_main
    main_of symmetric_agent = some symmetric_tcp_main
    main_of agent_nr = none

-- A null pointer is `none`.
abbrev pub init_transport_protocol : TransportProtocolType → Option TransportProtocol
init_transport_protocol tcp = some init_tcp
init_transport_protocol r2p2 = none

-- `targets` are the first `target_count` entries of the array. Null pointers are `none`.
pub record AgentConfig (R : Type 0) : Type 0 where
  pub thread_count : ℤ
  pub conn_count : ℤ
  pub targets : List HostTuple
  pub atype : AgentType
  pub tp_type : TransportProtocolType
  pub tp : Option TransportProtocol
  pub idist : Option (RandGen R)
  pub app_proto : Option (ApplicationProtocol R)

-- The configuration as calloc makes it.
abbrev pub calloc_config : {R : Type 0} → AgentConfig R
calloc_config = record {
  thread_count = pos 0;
  conn_count = pos 0;
  targets = [];
  atype = throughput_agent;
  tp_type = tcp;
  tp = none;
  idist = none;
  app_proto = none;
}
