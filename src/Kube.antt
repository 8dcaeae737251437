-- ===== src/Kube.antt =====
-- What the program sees of Kubernetes: the fields that it reads or writes of the API's types, and
-- the API server and the helper packages as parameters.
pub mod Meta
pub mod Pod
pub mod Objects
