-- ===== src/Config/Settings.antt =====
-- How a setting is read: a number written in decimal is that number, and what is no number, blank
-- text included, is the default.
use sui_ctf_infrastructure.Text.{Text}
use Prim.Native.String.{String}
