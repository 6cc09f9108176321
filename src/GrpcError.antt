-- ===== src/GrpcError.antt =====
-- The translation of gRPC errors into HTTP errors: client/app/services/grpc-error.server.ts.
pub mod Codes
pub mod Status
pub mod Known
pub mod Violations
pub mod Normalize
pub mod Requests
pub mod Fields
pub mod Laws
