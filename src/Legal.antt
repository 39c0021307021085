-- ===== src/Legal.antt =====
-- Consent to the legal documents: src/modules/legal/legal.service.ts, and the pages that carry the
-- documents, src/modules/static-pages/static-pages.service.ts. Texts are lists of code points, times
-- are milliseconds. The ids of acceptances and the times of creation and change that the database
-- keeps for a row are left out, where no code reads them.
pub mod Statuses
pub mod Acceptances
pub mod Pages
pub mod Grouping
pub mod Gate
pub mod Ledger
pub mod Calls
pub mod Consent
pub mod Settling
pub mod Publishing
pub mod Forward
mod Tests
use easyrisparmio_backend.Prelude.{
  ℕ, Bool, true, false, Option, none, some, List, [], ◌∷◌, text_eq, any,
}
use easyrisparmio_backend.Auth.{UserRole}

pub data LegalAudience : Type 0 where
  all personal business : LegalAudience

pub data LegalAcceptanceSource : Type 0 where
  registration social_login business_upgrade reacceptance : LegalAcceptanceSource

-- `LegalSlug.PRIVACY_POLICY`, 'privacy-policy'.
abbrev pub privacy_policy : List ℕ
privacy_policy = 112 ∷ 114 ∷ 105 ∷ 118 ∷ 97 ∷ 99 ∷ 121 ∷ 45 ∷ 112 ∷ 111 ∷ 108 ∷ 105 ∷ 99 ∷ 121 ∷ []

-- `LegalSlug.TERMS_CONDITIONS`, 'terms-conditions'.
abbrev pub terms_conditions : List ℕ
terms_conditions =
    116 ∷ 101 ∷ 114 ∷ 109 ∷ 115 ∷ 45 ∷ 99 ∷ 111 ∷ 110 ∷ 100 ∷ 105 ∷ 116 ∷ 105 ∷ 111 ∷ 110 ∷ 115 ∷ []

-- `LEGAL_SLUGS`.
abbrev pub legal_slugs : List (List ℕ)
legal_slugs = privacy_policy ∷ terms_conditions ∷ []

-- 'it'.
abbrev pub default_locale : List ℕ
default_locale = 105 ∷ 116 ∷ []

pub record StaticPage : Type 0 where
  pub id : ℕ
  pub slug : List ℕ
  pub title : List ℕ
  pub content : List ℕ
  pub locale : List ℕ
  pub is_active : Bool
  pub version : List ℕ
  pub requires_acceptance : Bool
  pub audience : LegalAudience
  pub published_at : Option ℕ
  pub change_summary : Option (List ℕ)
  pub created_at : ℕ

pub record UserLegalAcceptance : Type 0 where
  pub user_id : ℕ
  pub slug : List ℕ
  pub version : List ℕ
  pub locale : List ℕ
  pub accepted_at : ℕ
  pub source : LegalAcceptanceSource
  pub ip_address : Option (List ℕ)
  pub user_agent : Option (List ℕ)

pub record Store : Type 0 where
  pub pages : List StaticPage
  pub acceptances : List UserLegalAcceptance
  pub now : ℕ
  pub next_id : ℕ

abbrev pub same_audience : LegalAudience → LegalAudience → Bool
same_audience LegalAudience.all LegalAudience.all = true
same_audience LegalAudience.personal LegalAudience.personal = true
same_audience LegalAudience.business LegalAudience.business = true
same_audience _ _ = false

abbrev pub audiences_for : UserRole → List LegalAudience
audiences_for UserRole.business = LegalAudience.all ∷ LegalAudience.business ∷ []
audiences_for UserRole.personal = LegalAudience.all ∷ LegalAudience.personal ∷ []
audiences_for UserRole.admin = LegalAudience.all ∷ LegalAudience.personal ∷ []

abbrev pub has_slug : List ℕ → StaticPage → Bool
has_slug slug page = text_eq page.slug slug
