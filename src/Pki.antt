-- ===== src/Pki.antt =====
-- Package pki: the certificate authority and the certificates of single hosts.
pub mod Leaf
pub mod Issuer
pub mod Authority
