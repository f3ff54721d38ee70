-- ===== src/Registry/Opening.antt =====
-- `Registry.__init__`. The file system and the database file are parameters.
use mathlib.Core.List.{reverse}
use sui_ctf_infrastructure.Base.{◌==◌, if◌then◌else◌, [], ◌∷◌}
use sui_ctf_infrastructure.Text.{Text, codes, is_empty, or_text}
use sui_ctf_infrastructure.Python.Errors.{Result, ok, raised}
use sui_ctf_infrastructure.Registry.Rows.{Registry}

-- A reversed path without what stands in front of the first slash, and without leading slashes.
abbrev to_slash : Text → Text
to_slash [] = []
to_slash (c ∷ s) = let rest = to_slash s in if c == b'/' then c ∷ s else rest

abbrev past_slashes : Text → Text
past_slashes [] = []
past_slashes (c ∷ s) = let rest = past_slashes s in if c == b'/' then rest else c ∷ s

-- `os.path.dirname`: a head of slashes only is kept.
unfoldable pub dirname : Text → Text
dirname path =
    let head = to_slash (reverse path) in
    let bare = past_slashes head in if is_empty bare then reverse head else reverse bare

pub record Disk (W : Type 0) : Type 0 where
  -- `os.makedirs(…, exist_ok=True)`
  pub makedirs : Text → W → Result (Unit {0}) × W
  -- the connection, with the table of the file once the pragma and the schema's `CREATE TABLE IF NOT
  -- EXISTS` are through
  pub connect : Text → W → Result Registry × W

module _ {W : Type 0} (disk : Disk W) where
  abbrev pub connect_after : Text → Result (Unit {0}) × W → Result Registry × W
  connect_after path (raised e, w) = (raised e, w)
  connect_after path (ok _, w) = disk.connect path w

  unfoldable pub open_registry : Text → W → Result Registry × W
  unfolding dirname
  open_registry path w = connect_after path (disk.makedirs (or_text (dirname path) (codes ".")) w)
