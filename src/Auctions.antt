-- ===== src/Auctions.antt =====
-- AuctionService, src/auction_app/services/auction_service.py, with the schemas of
-- src/auction_app/schemas/auction.py.
pub mod Hash
pub mod Create
pub mod Lifecycle
pub mod Detail
