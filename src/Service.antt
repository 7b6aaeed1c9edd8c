-- ===== src/Service.antt =====
-- waku/v2/service.
pub mod CommonService
