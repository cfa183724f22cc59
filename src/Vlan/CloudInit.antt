-- ===== src/Vlan/CloudInit.antt =====
-- Where `InjectVLANConfigIntoCloudInit` puts the configuration.
use Prim.Native.String.{len, slice}
use text.Mathlib.TextLemmas.{append_assoc}
use text.Mathlib.TextPositions.{len-append}
use cluster_api_provider_lat.Base.{
  ℕ, ◌+◌, String, ◌<>◌, Bool, true, false, ◌||◌, ◌≡◌, refl, ◌⊎◌, inl, inr,
}
use cluster_api_provider_lat.Base.{none, some, arith, sym, ◌∙◌, ap, ◌==◌, string_eq, Bool-cases}
use mathlib.Core.Option.{Option}
use cluster_api_provider_lat.Go.Strings.{index}
use cluster_api_provider_lat.Go.TextLaws.{index_split, slice_left, slice_right}
use cluster_api_provider_lat.Vlan.{
  VlanNetplanConfig, inject_vlan_config_into_cloud_init, entry, appended_section, is_zero,
  insert_at, vlan_command, placed, placed_after,
}

-- The entry stands behind the first end of line at or after the first `runcmd:`.
abbrev pub IsInsertion : String → VlanNetplanConfig → String → Type 0
IsInsertion user_data cfg out =
    (u : String) × (line : String) × (w : String) × (user_data ≡ u <> (line <> ("\n" <> w)))
    × (index user_data "runcmd:" ≡ some (len u))
    × (index (line <> ("\n" <> w)) "\n" ≡ some (len line))
    × (out ≡ u <> (line <> ("\n" <> (entry cfg <> w))))

-- A section of its own stands at the end, where no `runcmd:` is followed by an end of line.
abbrev pub IsAppendix : String → VlanNetplanConfig → String → Type 0
IsAppendix user_data cfg out =
    ((index user_data "runcmd:" ≡ none)
      ⊎ ((idx : ℕ) × (index user_data "runcmd:" ≡ some idx)
          × (index (slice user_data idx (len user_data)) "\n" ≡ none)))
    × (out ≡ user_data <> ("\nruncmd:\n" <> entry cfg))

abbrev pub is_incomplete : VlanNetplanConfig → Bool
is_incomplete cfg = is_zero cfg.vid || cfg.ip_address == "" || cfg.subnet == ""

appended_section-entry :
    (s : String) (cfg : VlanNetplanConfig)
    → appended_section s cfg ≡ s <> ("\nruncmd:\n" <> entry cfg)
appended_section-entry s cfg = ap (λ t. s <> t) (append_assoc "\nruncmd:\n" "  - '" _)

len-line : (u line : String) → len (u <> (line <> "\n")) ≡ len u + len line + 1
len-line u line = omega (arith, len-append u (line <> "\n"), len-append line "\n")

insert_at_end_of_line :
    (s u line w t : String)
    → s ≡ u <> (line <> ("\n" <> w))
    → insert_at s (len u + len line + 1) t ≡ u <> (line <> ("\n" <> (t <> w)))
insert_at_end_of_line s u line w t e =
    ap (λ i. insert_at s i t) (sym (len-line u line))
    ∙ ap (λ x. x <> (t <> slice s (len (u <> (line <> "\n"))) (len s))) (slice_left s _ w split_at)
    ∙ ap (λ x. (u <> (line <> "\n")) <> (t <> x)) (slice_right s _ w split_at)
    ∙ regrouped (t <> w)
  where
    regrouped : (x : String) → (u <> (line <> "\n")) <> x ≡ u <> (line <> ("\n" <> x))
    regrouped x = append_assoc u (line <> "\n") x ∙ ap (λ y. u <> y) (append_assoc line "\n" x)

    split_at : s ≡ (u <> (line <> "\n")) <> w
    split_at = e ∙ sym (regrouped w)

insert_at-IsInsertion :
    (s : String) (cfg : VlanNetplanConfig) (idx nl : ℕ)
    → index s "runcmd:" ≡ some idx
    → index (slice s idx (len s)) "\n" ≡ some nl
    → IsInsertion s cfg (insert_at s (idx + nl + 1) (entry cfg))
insert_at-IsInsertion s cfg idx nl h k =
    let (u, v, e, at) = index_split s "runcmd:" h in
    let tail : slice s idx (len s) ≡ "runcmd:" <> v = rw at (slice_right s u _ e) in
    let (line, w, e', at') = index_split (slice s idx (len s)) "\n" k in
    let whole : s ≡ u <> (line <> ("\n" <> w)) = e ∙ ap (λ t. u <> t) (sym tail ∙ e') in
    let place : idx + nl + 1 ≡ len u + len line + 1 = omega arith in
    (
      u,
      line,
      w,
      whole,
      h ∙ ap some at,
      ap (λ t. index t "\n") (sym e') ∙ k ∙ ap some at',
      ap (λ i. insert_at s i (entry cfg)) place
          ∙ insert_at_end_of_line s u line w (entry cfg) whole,
    )

placed_after-IsPlaced :
    (s : String) (cfg : VlanNetplanConfig) (idx : ℕ)
    → index s "runcmd:" ≡ some idx
    → (o : Option ℕ) → index (slice s idx (len s)) "\n" ≡ o
    → IsInsertion s cfg (placed_after s cfg idx o) ⊎ IsAppendix s cfg (placed_after s cfg idx o)
placed_after-IsPlaced s cfg idx h (some nl) k = inl (insert_at-IsInsertion s cfg idx nl h k)
placed_after-IsPlaced s cfg idx h none k = inr (inr (idx, h, k), appended_section-entry s cfg)

placed-IsPlaced :
    (s : String) (cfg : VlanNetplanConfig) (o : Option ℕ)
    → index s "runcmd:" ≡ o
    → IsInsertion s cfg (placed s cfg o) ⊎ IsAppendix s cfg (placed s cfg o)
placed-IsPlaced s cfg none h = inr (inl h, appended_section-entry s cfg)
placed-IsPlaced s cfg (some idx) h = placed_after-IsPlaced s cfg idx h _ refl

-- A configuration with no VID, address or subnet changes nothing. Any other is put in once: as a
-- list entry directly below the first end of line at or after the first `runcmd:`, or, where there
-- is none, as a section at the end. The rest of the user data stays as it is.
pub inject_vlan_config_into_cloud_init_lem :
    (user_data : String) (cfg : VlanNetplanConfig)
    → let out = inject_vlan_config_into_cloud_init user_data cfg in
      ((is_incomplete cfg ≡ true) × (out ≡ user_data))
      ⊎ ((is_incomplete cfg ≡ false)
          × (IsInsertion user_data cfg out ⊎ IsAppendix user_data cfg out))
unfolding inject_vlan_config_into_cloud_init
inject_vlan_config_into_cloud_init_lem user_data cfg = elim (Bool-cases (is_incomplete cfg)) [
  | inl bad ↦ inl (bad, rw bad)
  | inr good ↦ inr (good, rw good (placed-IsPlaced user_data cfg _ refl))
]

-- The interface that the cluster's specification names has no influence on the user data.
inject_vlan_config_ignores_interface :
    (user_data name : String) (cfg : VlanNetplanConfig)
    → inject_vlan_config_into_cloud_init user_data (record cfg { interface = name })
      ≡ inject_vlan_config_into_cloud_init user_data cfg
unfolding inject_vlan_config_into_cloud_init vlan_command
inject_vlan_config_ignores_interface user_data name cfg = refl
