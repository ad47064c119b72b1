-- ===== src/Input.antt =====
-- deepticket/layers/input: how an ingress event finds its route.
pub mod Routing
pub mod Classifier
