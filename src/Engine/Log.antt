-- ===== src/Engine/Log.antt =====
-- What an audit row leaves alone in the engine of engine.py.
use ai_decision_firewall.Prelude.{String, ◌≡◌, refl}
use ai_decision_firewall.Audit.{Body}
use ai_decision_firewall.Engine.{Payload, Reads, Engine, log}

module _ {F : Type 0} (sha256_body : Body (Payload F) → String) (reads : Reads) where
  pub mode-log :
      (t : String) (p : Payload F) (e : Engine F)
      → (log sha256_body reads t p e).execution_mode ≡ e.execution_mode
  unfolding log
  mode-log t p e = refl

  pub states-log :
      (t : String) (p : Payload F) (e : Engine F) → (log sha256_body reads t p e).states ≡ e.states
  unfolding log
  states-log t p e = refl

  pub config-log :
      (t : String) (p : Payload F) (e : Engine F)
      → (log sha256_body reads t p e).policy_config ≡ e.policy_config
  unfolding log
  config-log t p e = refl
