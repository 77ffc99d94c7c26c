-- ===== src/Documents/Service.antt =====
-- apps/api/src/modules/documents/documents.service.ts and documents.mapper.ts, with the limits of
-- packages/contracts/src/documents.ts. The id of an upload (`randomUUID()`), the instants and whether
-- pg-boss takes a job are arguments.
mod Access
mod Upload
unfoldable pub use Access.*
unfoldable pub use Upload.*
