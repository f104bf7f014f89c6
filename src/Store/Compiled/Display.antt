-- ===== src/Store/Compiled/Display.antt =====
-- The `Display` of `CompiledError` in src/store/compiled.rs.
use justkv.Common.{◌++◌, Bytes, codes}
use justkv.Common.Writing.{Writing}
use justkv.Store.Compiled.{CompiledError, bad_magic, truncated, out_of_bounds}

module _ (fmt : Writing) where
  open fmt use {show}

  unfoldable pub compiled_text : CompiledError → Bytes
  compiled_text bad_magic = codes "not a justkv compiled file (bad magic)"
  compiled_text truncated = codes "compiled file is truncated"
  compiled_text (out_of_bounds index) =
      codes "entry " ++ (show index ++ codes " points outside the arena")
