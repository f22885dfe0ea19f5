-- ===== src/Worker/EaWire/Tests.antt =====
-- The theorem on records of extended attributes, applied to a short name.
use apfs_for_windows.Common.{
  [], ascii_qt, codes, false, inr, refl, some, text_eq, true, upper, ◌≡◌, ◌∷◌,
}
use apfs_for_windows.Worker.Ea.{is_content_critical_xattr}
use apfs_for_windows.Worker.Ea.Tests.{bar, bar-FitsAlias}
use apfs_for_windows.Worker.EaWire.{wire_ea, collect_ea_mutation, collected_of}
use apfs_for_windows.Worker.EaWire.RoundTrip.{collect_ea_mutation-wire_ea}

collect_ea_mutation-wire_ea_example :
    collect_ea_mutation ascii_qt [] [] (wire_ea ascii_qt [] [] (codes "BAR" ∷ []) (bar, 5 ∷ []))
    ≡ some (collected_of ascii_qt [] [] bar (5 ∷ []) false true)
unfolding ascii_qt is_content_critical_xattr text_eq upper
collect_ea_mutation-wire_ea_example =
    collect_ea_mutation-wire_ea ascii_qt [] [] (codes "BAR" ∷ []) bar (5 ∷ []) bar-FitsAlias refl
      (inr refl)
