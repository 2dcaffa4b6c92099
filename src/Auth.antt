-- ===== src/Auth.antt =====
-- Who may call: extensions/exposition/source/directives/auth.
--
-- What the components of identities answer, and the language's and the libraries' functions, are
-- parameters. A component answers the same throughout a request, so whether `identity.roles` was
-- read already is not kept. A role is its pieces, as the pattern of `substitute` finds them.
pub mod Identities
pub mod Directives
pub mod Authorization
mod Tests
