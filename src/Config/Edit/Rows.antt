-- ===== src/Config/Edit/Rows.antt =====
-- `p.row` and the selected keys.
use mathlib.Core.Path.{ap₂}
use software_factory_templat.Base.{Bool, List, Bytes, before, ◌≡◌, sym, arith}
use software_factory_templat.Base.Assoc.{lookup, is_some}
use software_factory_templat.Config.Edit.{EditEntry, row}

module _ (entries : List (Bytes × EditEntry)) (line : Bytes) (terminated : Bool) where
  pub line-row : (row entries line terminated).line ≡ line
  unfolding row
  line-row = ground arith

  pub terminated-row : (row entries line terminated).terminated ≡ terminated
  unfolding row
  terminated-row = ground arith

  -- A row is determined by its line and its end.
  pub row-row :
      row entries line terminated
      ≡ row entries (row entries line terminated).line (row entries line terminated).terminated
  row-row = ap₂ (row entries) (sym line-row) (sym terminated-row)

-- Only the selected keys matter to a row.
pub row-same :
    (a b : List (Bytes × EditEntry)) (line : Bytes) (terminated : Bool)
    → is_some (lookup (before b':' line) a) ≡ is_some (lookup (before b':' line) b)
    → row a line terminated ≡ row b line terminated
unfolding row
row-same a b line terminated h = rw h
