-- ===== src/Config/Names.antt =====
-- The names derived from a uuid.
use mathlib.Core.List.{append_cancel_left}
use sui_ctf_infrastructure.Base.{ℕ, ◌≡◌, ◌≢◌, ◌∷◌}
use sui_ctf_infrastructure.Text.{Text}
use sui_ctf_infrastructure.Config.{Config, public_base, rpc_url_for, container_name_for}

same_tail : {c : ℕ} {s t : Text} → ◌≡◌ {A = Text} (c ∷ s) (c ∷ t) → s ≡ t
same_tail e = cc

-- Two instances of one configuration have different container names and different player URLs,
-- unless they have the same uuid.
pub names-injective :
    (cfg : Config) (u v : Text)
    → u ≢ v
    → (container_name_for cfg u ≢ container_name_for cfg v)
      × (rpc_url_for cfg u ≢ rpc_url_for cfg v)
unfolding container_name_for rpc_url_for
names-injective cfg u v n = (
  λ e. n (same_tail (append_cancel_left cfg.instance_name_prefix _ _ e)),
  λ e. n (same_tail (append_cancel_left (public_base cfg) _ _ e)),
)
