-- ===== src/Legal/Calls.antt =====
-- The calls on consent and on the pages, in any order, and what they keep of the ledger:
-- src/modules/legal/legal.service.ts and src/modules/static-pages/static-pages.service.ts.
use easyrisparmio_backend.Prelude.{ℕ, ◌+◌, List, [], ◌∷◌}
use easyrisparmio_backend.Auth.{UserRole}
use easyrisparmio_backend.Legal.{LegalAcceptanceSource, Store}
use easyrisparmio_backend.Legal.Acceptances.{
  LegalAcceptanceItemDto, AcceptanceContext, accept_documents, record_acceptance_for,
}
use easyrisparmio_backend.Legal.Pages.{
  CreateStaticPageDto, UpdateStaticPageDto, create_page, update_page, delete_page, on_module_init,
}
use easyrisparmio_backend.Legal.Ledger.{AreOnce, Extends}

pub data Call : Type 0 where
  accept : ℕ → UserRole → List LegalAcceptanceItemDto → AcceptanceContext → Call
  sign_up : ℕ → UserRole → List (List ℕ) → LegalAcceptanceSource → List ℕ → AcceptanceContext → Call
  create : CreateStaticPageDto → Call
  update : ℕ → UpdateStaticPageDto → Call
  delete : ℕ → Call
  boot : Call
  wait : ℕ → Call

unfoldable pub serve : Call → Store → Store
serve (accept user_id role items context) s = (accept_documents user_id role items context s).0
serve (sign_up user_id role slugs source locale context) s =
    record_acceptance_for user_id role slugs source locale context s
serve (create dto) s = (create_page dto s).0
serve (update id dto) s = (update_page id dto s).0
serve (delete id) s = (delete_page id s).0
serve boot s = on_module_init s
serve (wait t) s = record s { now = s.now + t }

unfoldable pub serve_all : List Call → Store → Store
serve_all [] s = s
serve_all (c ∷ cs) s = serve_all cs (serve c s)

-- What each call keeps of the ledger: it only grows, and holds no key twice.
pub record Keeps (s t : Store) : Type 0 where
  pub extends : Extends s.acceptances t.acceptances
  pub once : AreOnce s.acceptances → AreOnce t.acceptances
