-- ===== src/Inventory.antt =====
-- The inventory service (production-warehouse-microservices/services/inventory-service).
pub mod Model
pub mod Transaction
pub mod Balances
pub mod Stock
mod Tests
