-- ===== src/Lib.antt =====
-- Verification of the core of the EasyRisparmio backend, a NestJS service that takes energy
-- bills, finds cheaper offers, and carries a customer's switch to a new supplier as a case.
--
-- The parts and how they meet. A bill and its case move through one list of statuses (Pipeline).
-- A customer registers with a tax identifier (TaxId), signs in and recovers a password with one-
-- time codes and refresh tokens (Auth), may have come through a friend's referral code
-- (Referrals), is sent offers for a bill, accepts one and so opens a case, which the
-- administrator moves along with the bill (Switching), and hands in the documents of a case,
-- which an administrator verifies or rejects (Cases). Before all that the app asks a customer to
-- accept the legal documents in their current versions (Legal, Versions); administrators keep the
-- suppliers, and remove one when no supply runs (Suppliers).
--
-- Files and code:
-- - Prelude, Prelude/Tests, Prelude/Lists, Prelude/Texts, Prelude/Sorting: shared names, Boolean
--   tests, lists measured by native numbers, texts, sorting.
-- - Http: the exceptions of NestJS, results, and computations that change a store and may throw.
-- - Pipeline: src/common/utils/bill-status-transitions.ts (isValidTransition,
--   getAvailableTransitions, getTransitionDirection, TRANSITION_ACTORS). Pipeline/Order is about
--   single changes, Pipeline/Journey about sequences of them.
-- - TaxId: src/common/validators/is-italian-tax-id.validator.ts (isValidPartitaIva,
--   isValidCodiceFiscale and what they call); TaxId/Constraints: its validator classes.
--   TaxId/Luhn and TaxId/Issue are about the VAT number, TaxId/CheckCharacter about the Codice
--   Fiscale, TaxId/Sums about loops that add up.
-- - Auth: the rows and finders (users.service.ts); Auth/Otp: generateAndSaveOtp,
--   otpCooldownRemaining, consumeOtp; Auth/Sessions: generateTokens, refreshToken, logout,
--   JwtStrategy.validate; Auth/Passwords: verifyOtp, resendOtp, forgotPassword, resetPassword,
--   changePassword; Auth/SignIn: login; all of src/modules/auth. The files below each are named
--   for what they prove.
-- - Cases: src/modules/cases/cases.service.ts, Cases/Documents for uploadDocument,
--   verifyDocument, rejectDocument, getDocuments; Cases/Text for
--   src/common/utils/address.utils.ts. Cases/Columns for applyAddressFields and
--   applyContractDetailFields, with what the addresses hold afterwards in Cases/Columns/Coherence
--   and PostalCodes, and the changes that are reported in Cases/Columns/Audit.
-- - Switching: the rows that src/modules/bills/bills.service.ts and
--   src/modules/cases/cases.service.ts share. Switching/Notices: billMilestone,
--   documentRequested, offersAvailable and the notices to admins of notification-
--   events.service.ts, with sendNotification and its insertion without duplicates;
--   Switching/Verifications: requestVerification, submitVerification; Switching/Transitions:
--   transitionBillStatus, applyActivationDates, logStatusChangeOnCase; Switching/Proposals:
--   sendOffersToUser; Switching/Reordering: reorderSentOffers; Switching/Acceptance and
--   Switching/Opening: the checks and the writes of createCase; Switching/CaseNumbers:
--   generateCaseNumber; Switching/Calls: sequences of all of these. Switching/Tables and
--   Switching/Counts hold what queries find after updates and how many rows fit.
-- - Referrals: src/modules/referrals/referrals.service.ts; Referrals/Calls has the calls,
--   Referrals/Lifecycle, Registration and Ownership what they keep, Referrals/Invites codes and
--   invites.
-- - Versions: src/common/utils/version.util.ts (compareVersions, maxVersion, VERSION_PATTERN);
--   Versions/Order has the laws of the order, Versions/Newest and Versions/Weight what the
--   functions compute.
-- - Legal: the rows of src/modules/legal and src/modules/static-pages. Legal/Statuses:
--   getDocumentStatuses, getPendingDocuments, getUserHistory; Legal/Acceptances: acceptDocuments,
--   recordAcceptanceFor, persistAcceptances, countAcceptancesByVersion (legal.service.ts);
--   Legal/Pages: onModuleInit, getPageBySlug, createPage, updatePage, deletePage,
--   attachAcceptanceCounts (static-pages.service.ts); Legal/Calls: sequences of them.
--   Legal/Grouping, Gate, Consent and Settling are about the statuses, Legal/Ledger about the
--   table of acceptances, Legal/Publishing and Forward about versions.
-- - Suppliers: src/modules/suppliers/suppliers.service.ts and
--   src/modules/offers/offers.service.ts, on the store of Switching; Suppliers/Catalogue: create,
--   update, toggleStatus of suppliers; Suppliers/Offers: create, update, updateStatus,
--   deleteOffer, with assertPricingComplete and validateStatusTransition; Suppliers/Removal:
--   deleteSupplier, cancelScheduledDeletion, executeScheduledDeletions; Suppliers/Calls:
--   sequences of all of these; Suppliers/Rows, Served, Edits, Due and Deletion are about running
--   supplies and the removal, Suppliers/Pricing about prices. Parameters are the start of a day
--   (Calendar, a monotone function), what the database refuses of an offer, and the supplier that
--   the object mapper writes for an offer that has its old supplier loaded (Database; the results
--   hold for any). The code of a softly removed supplier, which the unique index still holds, is
--   outside the model.
--
-- State. A service's tables are lists in a record Store, with the clock and what it sends; a row
-- that the code deletes softly is in no table; a call is a function from a store to a store and a
-- result, with each exception as a value and what was written before it kept. Calls of different
-- requests are sequences of such calls; a request is taken as one step, without interleaving
-- inside a call. The code runs refreshToken in a database transaction; in processReferralCode the
-- test for an active referral stands before its transaction, so two registrations of one user at
-- the same moment are outside the model.
--
-- Outside the repository's code, and parameters here: bcrypt, the signing of tokens, uuids and
-- random numbers, the mail transport, Postgres' LOWER (record Env of Auth), randomInt of the
-- referral codes, the calendar day of the clock, the driver's conversion of an instant to a day,
-- the database's matching of supplier names, and the case mapping of characters beyond ASCII.
-- Comparisons with a dummy hash, made for their duration, have no effect in the model.
--
-- Bounds. Numbers are natural numbers; no code modelled here relies on wrap-around. Every loop is
-- structural recursion on its list, and the five attempts at a referral code are recursion on the
-- number of attempts left, which the code fixes at five: running out is the code's own error. A
-- case number's digits are printed on fuel one above the number, which prints all of them.
--
-- Parameters too, since their code is not modelled: the estimate of an offer's savings
-- (estimateOfferSavings, floating point) and whether the placeholders of a notification's text
-- resolve.
--
-- Not modelled: registration and social login, the upload, analysis and association of bills,
-- updateCase, notes, the lists and recommendations of offers, the lists of suppliers and their
-- questions and answers, meters, reconciliation, agreements, the paged lists for administrators,
-- notifications and e-mail texts, queries for display, controllers, configuration and seeds.
-- Logging is left out.
pub mod Prelude
pub mod Http
pub mod Pipeline
pub mod TaxId
pub mod Auth
pub mod Cases
pub mod Referrals
pub mod Switching
pub mod Versions
pub mod Legal
pub mod Suppliers
