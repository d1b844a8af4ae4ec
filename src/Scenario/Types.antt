-- ===== src/Scenario/Types.antt =====
-- The data of zakuro/src/scenario.rs.
use Prim.Native.String.{String}
use zakuro_rs.Base.{ℕ, List}

pub data ScenarioOp : Type 0 where
  sleep : ℕ → ℕ → ScenarioOp
  disconnect reconnect exit : ScenarioOp
  send_data_channel_message : String → ℕ → ℕ → ScenarioOp

pub data ScenarioEnd : Type 0 where
  reconnect exit : ScenarioEnd

pub record Scenario : Type 0 where
  pub ops : List ScenarioOp
  pub loop_index : ℕ

pub record ScenarioPlayer : Type 0 where
  pub scenario : Scenario
  pub op_index : ℕ
  pub instance_id : ℕ
  pub vc_id : ℕ
  pub dc_counter : List (String × ℕ)
  pub xorshift_state : ℕ
