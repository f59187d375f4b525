-- ===== src/Tools/Gateway/Discovery.antt =====
-- The tools that `discover` of src/tools/gateway/tool-gateway.ts shows, against those that the
-- capability check lets run.
use devagent_ts.Base.{
  ◌∙◌, sym, Bool, true, false, not, ◌&&◌, String, string_eq, List, [], ◌∷◌, ◌≡◌, refl, arith, any,
  filter, includes, is_empty,
}
use devagent_ts.Tools.Gateway.Catalog.{ToolCatalog, discover, all_tools}
use devagent_ts.Tools.Gateway.Invocation.{Setting, InvokeContext, lacks_capability}

filter_cong {ℓ} :
    {A : Type ℓ} (p q : A → Bool) (xs : List A) → ((x : A) → p x ≡ q x) → filter p xs ≡ filter q xs
filter_cong p q [] h = refl
filter_cong p q (x ∷ xs) h = ground (arith, h x, filter_cong p q xs h)

filter_all {ℓ} :
    {A : Type ℓ} (p : A → Bool) (xs : List A) → ((x : A) → p x ≡ true) → filter p xs ≡ xs
filter_all p [] h = refl
filter_all p (x ∷ xs) h = ground (arith, h x, filter_all p xs h)

any_none {ℓ} : {A : Type ℓ} (p : A → Bool) (xs : List A) → any p xs ≡ true → is_empty xs ≡ false
any_none p [] h = cc h
any_none p (x ∷ xs) h = refl

discover_unfiltered :
    (capabilities : List String) (catalog : ToolCatalog)
    → is_empty capabilities ≡ true
    → discover capabilities catalog ≡ all_tools catalog
unfolding discover
discover_unfiltered capabilities catalog h = rw (h, discover) refl

module _ {S : Setting} where
  -- Where the capability check is not skipped, the tools that `discover` shows for a run's
  -- capabilities are, in the catalog's order, those that the check lets the run use, less the ones
  -- that declare no capability, which the check lets every run use; a run with no capabilities is
  -- shown all the tools and may use them all.
  pub discover-lacks_capability :
      (ctx : InvokeContext S) (catalog : ToolCatalog)
      → ctx.skip_capability_check ≡ false
      → (is_empty ctx.capabilities ≡ false
          → discover ctx.capabilities catalog
            ≡ filter
                (λ t. not (lacks_capability ctx t) && not (is_empty t.capabilities))
                (all_tools catalog))
        × (is_empty ctx.capabilities ≡ true
            → discover ctx.capabilities catalog
              ≡ filter (λ t. not (lacks_capability ctx t)) (all_tools catalog))
  unfolding discover lacks_capability
  discover-lacks_capability ctx catalog skip = (
    λ h.
        rw (h, discover)
          (filter_cong _ _ (all_tools catalog)
            (λ t. ground (arith, any_none (λ c. includes c ctx.capabilities) t.capabilities))),
    λ h.
        discover_unfiltered ctx.capabilities catalog h
        ∙ sym (
            filter_all (λ t. not (lacks_capability ctx t)) (all_tools catalog) (λ t. ground arith)),
  )
